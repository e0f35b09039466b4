-- ===== src/Models/Related/Released.antt =====
-- models/users.go: what `SetReferringUserUsers` does to the objects that were related before.
use users_api.Base.{Option, none, some, List, [], ◌∷◌, ◌≡◌, refl, ◌∙◌, All, nat_eq}
use mathlib.Core.Option
use users_api.Go.Exec.{for_each}
use users_api.Models.User.{UserPtr, UserR, User}
use users_api.Models.World.{Heap, World, put_user}
use users_api.Models.Objects.{set_cell_here, set_cell_there, get_user_lem, written}
use users_api.Models.Env.{Env}
use users_api.Models.Load.{set_referring}
use users_api.Models.Related.{put_key, modify_loaded, release, release_all}
use users_api.Models.Related.Links.{relations, Sets, Sets-trans, put_key-Sets, with_key}
use users_api.Models.Related.Goes.{Goes, bind-Goes, mapped}
use users_api.Models.Related.Each.{Held, Each, All-Held-Each, Each-refl, Each-trans, Sets-Each}

module _ (E : Env) where
  open E use {sql as S}

  modify_loaded_at :
      (w : World S) (p : UserPtr) (u : User) (f : UserR → UserR) (r : Option UserR)
      → w.heap.cell p ≡ some (record u { r = r })
      → Sets (modify_loaded E p f) w p (record u { r = Option.map f r })
  unfolding modify_loaded put_user
  modify_loaded_at w p u f none h = record {
    after = w;
    runs = rw (get_user_lem w p (record u { r = none }) h) refl;
    here = h;
    others = λ q differ. refl;
    db = refl;
  }
  modify_loaded_at w p u f (some r) h = record {
    after = written p (record u { r = some (f r) }) w;
    runs = rw (get_user_lem w p (record u { r = some r }) h) refl;
    here = set_cell_here w.heap.cell p (record u { r = some (f r) });
    others = λ q differ. set_cell_there w.heap.cell p q (record u { r = some (f r) }) differ;
    db = refl;
  }

  pub modify_loaded-Sets :
      (w : World S) (p : UserPtr) (u : User) (f : UserR → UserR)
      → w.heap.cell p ≡ some u
      → Sets (modify_loaded E p f) w p (record u { r = Option.map f u.r })
  modify_loaded-Sets w p u f h = modify_loaded_at w p u f u.r h

abbrev NoReferrer : Option UserR → Type 0
NoReferrer none = Unit {0}
NoReferrer (some r) = r.referring_user ≡ none

unset : (r : Option UserR) → NoReferrer (Option.map (set_referring none) r)
unset none = tt
unset (some r) = refl

module _ (E : Env) where
  open E use {sql as S, library as L}

  -- The object has a null foreign key, and points to no other.
  abbrev pub IsReleased : User → Type 0
  IsReleased u = (u.columns.referring_user_id ≡ L.key_nil) × NoReferrer u.r

  abbrev pub IsReleasedAt : Heap → UserPtr → Type 0
  IsReleasedAt h p = (u : User) × (h.cell p ≡ some u) × IsReleased u

  -- An object that has its id, and is released if it was.
  abbrev pub StaysReleased : User → User → Type 0
  StaysReleased u u' = (u'.columns.id ≡ u.columns.id) × (IsReleased u → IsReleased u')

  abbrev released : User → User
  released u = record (with_key E L.key_nil u) { r = Option.map (set_referring none) u.r }

  release-Sets :
      (w : World S) (p : UserPtr) (u : User)
      → w.heap.cell p ≡ some u
      → Sets (release E p) w p (released u)
  unfolding release
  release-Sets w p u h =
      let s = put_key-Sets E w p u L.key_nil h in
      Sets-trans (put_key E p L.key_nil) (modify_loaded E p (set_referring none)) w p
        (with_key E L.key_nil u) (released u) s
        (modify_loaded-Sets E s.after p (with_key E L.key_nil u) (set_referring none) s.here)

  abbrev pub Kept : Heap → Heap → Type 0
  Kept = Each StaysReleased

  Kept-refl : (h : Heap) → Kept h h
  Kept-refl = Each-refl StaysReleased (λ u. (refl, λ x. x))

  Kept-trans : (h i j : Heap) → Kept h i → Kept i j → Kept h j
  Kept-trans = Each-trans StaysReleased (λ u v x a b. (b.0 ∙ a.0, λ r. b.1 (a.1 r)))

  IsReleasedAt-Kept : (h h' : Heap) (p : UserPtr) → Kept h h' → IsReleasedAt h p → IsReleasedAt h' p
  IsReleasedAt-Kept h h' p k (u, e, r) = let (u', e', c) = k p u e in (u', e', c.1 r)

  All-IsReleasedAt-Kept :
      (h h' : Heap) (ps : List UserPtr)
      → Kept h h'
      → All (IsReleasedAt h) ps
      → All (IsReleasedAt h') ps
  All-IsReleasedAt-Kept h h' [] k a = tt
  All-IsReleasedAt-Kept h h' (p ∷ ps) k a =
      (IsReleasedAt-Kept h h' p k a.0, All-IsReleasedAt-Kept h h' ps k a.1)

  release-Goes :
      (w : World S) (p : UserPtr) (u : User)
      → w.heap.cell p ≡ some u
      → Goes (release E p w) (λ _ v. Kept w.heap v.heap × IsReleasedAt v.heap p)
  release-Goes w p u h =
      let s = release-Sets w p u h in
      rw s.runs (record {
        holds = (
          Sets-Each StaysReleased (λ x. (refl, λ y. y)) (release E p) w p u (released u) h s
              (refl, λ x. (refl, unset u.r)),
          (released u, s.here, (refl, unset u.r)),
        );
      })

  releases-Goes :
      (ps : List UserPtr) (w : World S)
      → All (Held w.heap) ps
      → Goes (for_each (release E) ps w) (λ _ v. Kept w.heap v.heap × All (IsReleasedAt v.heap) ps)
  unfolding for_each
  releases-Goes [] w held = record { holds = (Kept-refl w.heap, tt) }
  releases-Goes (p ∷ ps) w held =
      bind-Goes (release E p) (λ _. for_each (release E) ps) w (release-Goes w p held.0.0 held.0.1)
        λ _ v (k, r).
          mapped (for_each (release E) ps v)
            (releases-Goes ps v (All-Held-Each StaysReleased w.heap v.heap ps k held.1))
            (λ _ x (k', rs).
              (Kept-trans w.heap v.heap x.heap k k', (IsReleasedAt-Kept v.heap x.heap p k' r, rs)))

  abbrev clear_list : UserR → UserR
  clear_list r = record r { referring_user_users = [] }

  still_none : (r : Option UserR) → NoReferrer r → NoReferrer (Option.map clear_list r)
  still_none none h = tt
  still_none (some r) h = h

  emptied : (r : Option UserR) → (relations (Option.map clear_list r)).referring_user_users ≡ []
  emptied none = refl
  emptied (some r) = refl

  -- The object with its list.
  abbrev pub ListIs : List UserPtr → UserPtr → Heap → Type 0
  ListIs l o h = (u : User) × (h.cell o ≡ some u) × ((relations u.r).referring_user_users ≡ l)

  release_all_at :
      (o : UserPtr) (u : User) (r : Option UserR) (w : World S)
      → w.heap.cell o ≡ some (record u { r = r })
      → All (Held w.heap) (relations r).referring_user_users
      → Goes (release_all E o r w) (λ _ v.
        Kept w.heap v.heap
        × All (IsReleasedAt v.heap) (relations r).referring_user_users
        × ListIs [] o v.heap)
  release_all_at o u none w here held = record {
    holds = (Kept-refl w.heap, tt, (record u { r = none }, here, refl));
  }
  release_all_at o u (some r) w here held =
      let ps = r.referring_user_users in
      bind-Goes (for_each (release E) ps) (λ _. modify_loaded E o clear_list) w
        (releases-Goes ps w held)
        λ _ v (k, rs).
          let (x, there, c) = k o (record u { r = some r }) here in
          let s = modify_loaded-Sets E v o x clear_list there in
          let k' =
            Sets-Each StaysReleased (λ y. (refl, λ z. z)) (modify_loaded E o clear_list) v o x
              (record x { r = Option.map clear_list x.r }) there s
              (refl, λ y. (y.0, still_none x.r y.1)) in
          rw s.runs (record {
            holds = (
              Kept-trans w.heap v.heap s.after.heap k k',
              All-IsReleasedAt-Kept v.heap s.after.heap ps k' rs,
              (record x { r = Option.map clear_list x.r }, s.here, emptied x.r),
            );
          })

  -- All that were related are released, and the object's list is empty.
  pub release_all-Goes :
      (o : UserPtr) (user : User) (w : World S)
      → w.heap.cell o ≡ some user
      → All (Held w.heap) (relations user.r).referring_user_users
      → Goes (release_all E o user.r w) (λ _ v.
        Kept w.heap v.heap
        × All (IsReleasedAt v.heap) (relations user.r).referring_user_users
        × ListIs [] o v.heap)
  release_all-Goes o user w here held = release_all_at o user user.r w here held
