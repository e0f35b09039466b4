-- ===== src/Models/Related/Appended.antt =====
-- models/users.go: what `AddReferringUserUsers` leaves as it was, and the list that it leaves.
use mathlib.Core.Path.{subst}
use users_api.Base.{false, some, List, [], ◌∷◌, ◌++◌, ◌≡◌, ◌≢◌, refl, ap, ◌∙◌, All, nat_eq}
use users_api.Go.Result.{Result}
use users_api.Go.Exec.{for_each, ◌>>◌}
use users_api.Go.Steps.{then_assoc}
use users_api.Models.User.{UserPtr, User}
use users_api.Models.Sql.{Conn}
use users_api.Models.World.{Heap, World}
use users_api.Models.Objects.{get_user_lem}
use users_api.Models.Env.{Env}
use users_api.Models.Load.{ensure_r, modify_r, set_referring}
use users_api.Models.Related.{put_key, write_key, add_one, point_to, add_referring_user_users}
use users_api.Models.Related.Links.{relations, attach-Sets, put_key-Sets, with_key}
use users_api.Models.Related.Goes.{Goes, bind-Goes, mapped, both-Goes}
use users_api.Models.Related.Each.{
  Held, Each, All-Held-Each, Each-refl, Each-trans, Sets-Each, Framed, Sets-Framed, Framed-trans,
}
use users_api.Models.Related.Released.{ListIs}
use users_api.Models.Related.Added.{
  write_key-Goes, append_all, AreLinked, add_referring_user_users-AreLinked,
}

-- An object that has its id and its list.
abbrev SameList : User → User → Type 0
SameList u u' =
    (u'.columns.id ≡ u.columns.id)
    × ((relations u'.r).referring_user_users ≡ (relations u.r).referring_user_users)

abbrev Listed : Heap → Heap → Type 0
Listed = Each SameList

Listed-refl : (h : Heap) → Listed h h
Listed-refl = Each-refl SameList (λ u. (refl, refl))

Listed-trans : (h i j : Heap) → Listed h i → Listed i j → Listed h j
Listed-trans = Each-trans SameList (λ u v x a b. (b.0 ∙ a.0, b.1 ∙ a.1))

-- Only the given objects change, and no list does.
abbrev Steady : List UserPtr → Heap → Heap → Type 0
Steady ps h h' = Listed h h' × Framed ps h h'

Steady-trans :
    (p : UserPtr) (ps : List UserPtr) (h i j : Heap)
    → Steady (p ∷ []) h i
    → Steady ps i j
    → Steady (p ∷ ps) h j
Steady-trans p ps h i j (a, f) (b, g) = (Listed-trans h i j a b, Framed-trans p ps h i j f g)

module _ (E : Env) where
  open E use {sql as S, library as L}

  add_one-Steady :
      (conn : Conn S.Tx) (o rel : UserPtr) (user u : User) (w : World S)
      → w.heap.cell o ≡ some user
      → w.heap.cell rel ≡ some u
      → Goes (add_one E conn false o rel w) (λ _ v. Steady (rel ∷ []) w.heap v.heap)
  unfolding add_one
  add_one-Steady conn o rel user u w here there =
      let key = L.key_assign user.columns.id in
      rw (get_user_lem w o user here, get_user_lem w rel u there)
        (bind-Goes (write_key E "failed to update foreign table" conn user.columns.id u.columns.id)
          (λ _. put_key E rel key) w
          (write_key-Goes E "failed to update foreign table" conn user.columns.id u.columns.id w)
          λ _ v same.
            let at : v.heap.cell rel ≡ some u = ap (λ (h : Heap). h.cell rel) same ∙ there in
            let s = put_key-Sets E v rel u key at in
            rw s.runs (record {
              holds =
                  subst (λ (h : Heap). Steady (rel ∷ []) h s.after.heap) same
                    (
                      Sets-Each SameList (λ x. (refl, refl)) (put_key E rel key) v rel u
                          (with_key E key u) at s (refl, refl),
                      Sets-Framed (put_key E rel key) v rel (with_key E key u) s,
                    );
            }))

  keys-Steady :
      (conn : Conn S.Tx) (o : UserPtr) (ps : List UserPtr) (user : User) (w : World S)
      → w.heap.cell o ≡ some user
      → All (Held w.heap) ps
      → Goes (for_each (add_one E conn false o) ps w) (λ _ v. Steady ps w.heap v.heap)
  unfolding for_each
  keys-Steady conn o [] user w here held = record { holds = (Listed-refl w.heap, λ q a. refl) }
  keys-Steady conn o (p ∷ ps) user w here held =
      bind-Goes (add_one E conn false o p) (λ _. for_each (add_one E conn false o) ps) w
        (add_one-Steady conn o p user held.0.0 w here held.0.1)
        λ _ v s.
          let (user', here', l) = s.0 o user here in
          mapped (for_each (add_one E conn false o) ps v)
            (keys-Steady conn o ps user' v here'
              (All-Held-Each SameList w.heap v.heap ps s.0 held.1))
            (λ _ x t. Steady-trans p ps w.heap v.heap x.heap s t)

  point_to-Steady :
      (o p : UserPtr) (u : User) (w : World S)
      → w.heap.cell p ≡ some u
      → Goes (point_to E o p w) (λ _ v. Steady (p ∷ []) w.heap v.heap)
  unfolding point_to
  point_to-Steady o p u w here =
      let s = attach-Sets w p u (set_referring (some o)) here in
      let u' : User = record u { r = some (set_referring (some o) (relations u.r)) } in
      let m = ensure_r p >> modify_r p (set_referring (some o)) in
      rw s.runs (record {
        holds = (
          Sets-Each SameList (λ x. (refl, refl)) m w p u u' here s (refl, refl),
          Sets-Framed m w p u' s,
        );
      })

  pointers-Steady :
      (o : UserPtr) (ps : List UserPtr) (w : World S)
      → All (Held w.heap) ps
      → Goes (for_each (point_to E o) ps w) (λ _ v. Steady ps w.heap v.heap)
  unfolding for_each
  pointers-Steady o [] w held = record { holds = (Listed-refl w.heap, λ q a. refl) }
  pointers-Steady o (p ∷ ps) w held =
      bind-Goes (point_to E o p) (λ _. for_each (point_to E o) ps) w
        (point_to-Steady o p held.0.0 w held.0.1)
        λ _ v s.
          mapped (for_each (point_to E o) ps v)
            (pointers-Steady o ps v (All-Held-Each SameList w.heap v.heap ps s.0 held.1))
            (λ _ x t. Steady-trans p ps w.heap v.heap x.heap s t)

  -- The object's list grows by exactly the given ones, and no other object changes than it and they.
  pub add-Appended :
      (conn : Conn S.Tx) (o : UserPtr) (ps l : List UserPtr) (w : World S)
      → ListIs E l o w.heap
      → All (Held w.heap) ps
      → Goes
          (add_referring_user_users E conn false o ps w)
          (λ _ v. ListIs E (l ++ ps) o v.heap × Framed (o ∷ ps) w.heap v.heap)
  unfolding add_referring_user_users
  add-Appended conn o ps l w (user, here, list) held =
      let pointing = for_each (point_to E o) ps in
      let listing = ensure_r o >> modify_r o (append_all E ps) in
      bind-Goes (for_each (add_one E conn false o) ps)
        (λ _. ensure_r o >> (modify_r o (append_all E ps) >> pointing)) w
        (keys-Steady conn o ps user w here held)
        λ _ v (g, f).
          let (u, there, same) = g o user here in
          let s = attach-Sets v o u (append_all E ps) there in
          let u' : User = record u { r = some (append_all E ps (relations u.r)) } in
          let framed = Sets-Framed listing v o u' s in
          let change = Sets-Each (λ _ _. Unit {0}) (λ _. tt) listing v o u u' there s tt in
          let held' =
            All-Held-Each (λ _ _. Unit {0}) v.heap s.after.heap ps change
              (All-Held-Each SameList w.heap v.heap ps g held) in
          subst
            (λ (x : Result (Unit {0}) × World S).
              Goes x (λ _ y. ListIs E (l ++ ps) o y.heap × Framed (o ∷ ps) w.heap y.heap))
            (then_assoc (ensure_r o) (modify_r o (append_all E ps)) pointing v)
            (rw s.runs (
              mapped (pointing s.after) (pointers-Steady o ps s.after held') (λ _ x (g', f').
                let (z, last, list') = g' o u' s.here in
                (
                  (z, last, list'.1 ∙ ap (λ (m : List UserPtr). m ++ ps) (same.1 ∙ list)),
                  λ q a. f' q a.1 ∙ (framed q (a.0, tt) ∙ f q a.1),
                ))))

  -- `AddReferringUserUsers` without an insertion never panics, and returns an error only if a
  -- statement fails; otherwise each of the given objects has the object's id as its foreign key
  -- and points to the object, the object's list is the former one with the given ones behind it,
  -- and every other object is as it was. This holds where all of the given ones are objects; one
  -- may be given twice, or be the object itself.
  pub add_referring_user_users-AreAdded :
      (conn : Conn S.Tx) (o : UserPtr) (ps : List UserPtr) (q : UserPtr) (user : User) (w : World S)
      → w.heap.cell o ≡ some user
      → All (Held w.heap) ps
      → All (λ p. p ≢ q) (o ∷ ps)
      → Goes (add_referring_user_users E conn false o ps w) (λ _ v.
        AreLinked E (L.key_assign user.columns.id) o ps v.heap
        × ListIs E ((relations user.r).referring_user_users ++ ps) o v.heap
        × (v.heap.cell q ≡ w.heap.cell q))
  add_referring_user_users-AreAdded conn o ps q user w here held others =
      let adding = add_referring_user_users E conn false o ps in
      mapped (adding w)
        (both-Goes (adding w) (add_referring_user_users-AreLinked E conn o ps user w here held) (
          add-Appended conn o ps (relations user.r).referring_user_users w (user, here, refl) held))
        (λ _ v (linked, (list, framed)). (linked, list, framed q others))
