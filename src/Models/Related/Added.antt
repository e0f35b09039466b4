-- ===== src/Models/Related/Added.antt =====
-- models/users.go: what `AddReferringUserUsers` writes to the objects that it is given.
use mathlib.Core.Path.{subst}
use users_api.Base.{
  ℕ, String, false, Option, none, some, List, [], ◌∷◌, ◌++◌, ◌≡◌, refl, ap, ◌∙◌, All, nat_eq,
}
use users_api.Go.Error.{Error, wrap}
use users_api.Go.Result.{Result, Attempt, done, failed, attempt}
use users_api.Go.Exec.{pure, wrapping, continue, for_each, ◌>>◌}
use users_api.Go.Steps.{then_assoc}
use users_api.Go.Null.{Null}
use users_api.Models.User.{UserPtr, UserR, User}
use users_api.Models.Sql.{Conn, Statement}
use users_api.Models.World.{Heap, World, with_db, change_db}
use users_api.Models.Objects.{get_user_lem}
use users_api.Models.Env.{Env}
use users_api.Models.Load.{ensure_r, modify_r, set_referring}
use users_api.Models.Insert.{exec_only}
use users_api.Models.Related.{put_key, write_key, add_one, point_to, add_referring_user_users}
use users_api.Models.Related.Links.{relations, attach-Sets, put_key-Sets}
use users_api.Models.Related.Goes.{exec_fails, Goes, bind-Goes, mapped}
use users_api.Models.Related.Each.{Held, All-Held-Each}
use users_api.Models.Related.Later.{
  Later, PointsAt, EndsIn, Grown, Grown-refl, Grown-trans, Sets-Grown,
}

module _ (E : Env) where
  open E use {sql as S, library as L}

  pub executed :
      (f : Error → Error) (conn : Conn S.Tx) (statement : Statement) (w : World S)
      (r : Attempt (Attempt ℕ)) (d : S.Db)
      → (S.exec conn statement w.db).0 ≡ r
      → Goes
          (wrapping f (λ v. (continue (attempt r) (λ _. pure (tt {0})) v)) (with_db d w))
          (λ _ v. v.heap ≡ w.heap)
  executed f conn statement w (done n) d e = record { holds = refl }
  executed f conn statement w (failed x) d e = record { holds = exec_fails conn statement w.db x e }

  pub write_key-Goes :
      (context : String) (conn : Conn S.Tx) (referrer_id user_id : String) (w : World S)
      → Goes (write_key E context conn referrer_id user_id w) (λ _ v. v.heap ≡ w.heap)
  unfolding write_key exec_only change_db
  write_key-Goes context conn referrer_id user_id w =
      executed (λ e. wrap e context) conn _ w _ (S.exec conn _ w.db).1 refl

  -- What the first loop leaves for one object.
  abbrev HasKey : Null String → Heap → UserPtr → Type 0
  HasKey key h p = (u : User) × (h.cell p ≡ some u) × (u.columns.referring_user_id ≡ key)

  HasKey-Grown :
      (key : Null String) (o : UserPtr) (tail : List UserPtr) (h h' : Heap) (p : UserPtr)
      → Grown key o tail h h'
      → HasKey key h p
      → HasKey key h' p
  HasKey-Grown key o tail h h' p g (u, e, k) = let (u', e', l) = g p u e in (u', e', l.keyed k)

  HasKeys-Grown :
      (key : Null String) (o : UserPtr) (tail : List UserPtr) (h h' : Heap) (ps : List UserPtr)
      → Grown key o tail h h'
      → All (HasKey key h) ps
      → All (HasKey key h') ps
  HasKeys-Grown key o tail h h' [] g a = tt
  HasKeys-Grown key o tail h h' (p ∷ ps) g a =
      (HasKey-Grown key o tail h h' p g a.0, HasKeys-Grown key o tail h h' ps g a.1)

  add_one-Goes :
      (conn : Conn S.Tx) (o : UserPtr) (tail : List UserPtr) (rel : UserPtr) (user u : User)
      (w : World S)
      → w.heap.cell o ≡ some user
      → w.heap.cell rel ≡ some u
      → let key = L.key_assign user.columns.id in
        Goes
          (add_one E conn false o rel w)
          (λ _ v. Grown key o tail w.heap v.heap × HasKey key v.heap rel)
  unfolding add_one
  add_one-Goes conn o tail rel user u w here there =
      rw (get_user_lem w o user here, get_user_lem w rel u there)
        (bind-Goes (write_key E "failed to update foreign table" conn user.columns.id u.columns.id)
          (λ _. put_key E rel (L.key_assign user.columns.id)) w
          (write_key-Goes "failed to update foreign table" conn user.columns.id u.columns.id w)
          λ _ v same.
            let key = L.key_assign user.columns.id in
            let s = put_key-Sets E v rel u key (ap (λ (h : Heap). h.cell rel) same ∙ there) in
            let grown =
              Sets-Grown key o tail (put_key E rel key) v rel u
                (record u { columns = record u.columns { referring_user_id = key } })
                (ap (λ (h : Heap). h.cell rel) same ∙ there) s
                (record { id = refl; keyed = λ _. refl; points = λ x. x; ends = λ x. x }) in
            rw s.runs (record {
              holds = (
                subst (λ (h : Heap). Grown key o tail h s.after.heap) same grown,
                (record u { columns = record u.columns { referring_user_id = key } }, s.here, refl),
              );
            }))

  keys-Goes :
      (conn : Conn S.Tx) (o : UserPtr) (tail : List UserPtr) (key : Null String) (ps : List UserPtr)
      (user : User) (w : World S)
      → w.heap.cell o ≡ some user
      → L.key_assign user.columns.id ≡ key
      → All (Held w.heap) ps
      → Goes
          (for_each (add_one E conn false o) ps w)
          (λ _ v. Grown key o tail w.heap v.heap × All (HasKey key v.heap) ps)
  unfolding for_each
  keys-Goes conn o tail key [] user w here assigned held = record {
    holds = (Grown-refl key o tail w.heap, tt);
  }
  keys-Goes conn o tail key (p ∷ ps) user w here assigned held =
      bind-Goes (add_one E conn false o p) (λ _. for_each (add_one E conn false o) ps) w
        (subst
          (λ k.
            Goes (add_one E conn false o p w)
              (λ _ v. Grown k o tail w.heap v.heap × HasKey k v.heap p))
          assigned (add_one-Goes conn o tail p user held.0.0 w here held.0.1))
        λ _ v (g, k).
          let (user', here', l) = g o user here in
          mapped (for_each (add_one E conn false o) ps v)
            (keys-Goes conn o tail key ps user' v here' (ap L.key_assign l.id ∙ assigned)
              (All-Held-Each (Later key o tail) w.heap v.heap ps g held.1))
            (λ _ x (g', ks). (
              Grown-trans key o tail w.heap v.heap x.heap g g',
              (HasKey-Grown key o tail v.heap x.heap p g' k, ks),
            ))

  abbrev HasPointer : UserPtr → Heap → UserPtr → Type 0
  HasPointer o h p = (u : User) × (h.cell p ≡ some u) × PointsAt o u.r

  HasPointers-Grown :
      (key : Null String) (o : UserPtr) (tail : List UserPtr) (h h' : Heap) (p : UserPtr)
      → Grown key o tail h h'
      → HasPointer o h p
      → HasPointer o h' p
  HasPointers-Grown key o tail h h' p g (u, e, k) =
      let (u', e', l) = g p u e in (u', e', l.points k)

  point_to-Goes :
      (key : Null String) (o : UserPtr) (tail : List UserPtr) (p : UserPtr) (u : User) (w : World S)
      → w.heap.cell p ≡ some u
      → Goes (point_to E o p w) (λ _ v. Grown key o tail w.heap v.heap × HasPointer o v.heap p)
  unfolding point_to
  point_to-Goes key o tail p u w here =
      let s = attach-Sets w p u (set_referring (some o)) here in
      let u' : User = record u { r = some (set_referring (some o) (relations u.r)) } in
      rw s.runs (record {
        holds = (
          Sets-Grown key o tail (ensure_r p >> modify_r p (set_referring (some o))) w p u u' here s
              (record { id = refl; keyed = λ x. x; points = λ _. refl; ends = λ x. x }),
          (u', s.here, refl),
        );
      })

  pointers-Goes :
      (key : Null String) (o : UserPtr) (tail ps : List UserPtr) (w : World S)
      → All (Held w.heap) ps
      → Goes
          (for_each (point_to E o) ps w)
          (λ _ v. Grown key o tail w.heap v.heap × All (HasPointer o v.heap) ps)
  unfolding for_each
  pointers-Goes key o tail [] w held = record { holds = (Grown-refl key o tail w.heap, tt) }
  pointers-Goes key o tail (p ∷ ps) w held =
      bind-Goes (point_to E o p) (λ _. for_each (point_to E o) ps) w
        (point_to-Goes key o tail p held.0.0 w held.0.1)
        λ _ v (g, k).
          mapped (for_each (point_to E o) ps v)
            (pointers-Goes key o tail ps v
              (All-Held-Each (Later key o tail) w.heap v.heap ps g held.1))
            (λ _ x (g', ks). (
              Grown-trans key o tail w.heap v.heap x.heap g g',
              (HasPointers-Grown key o tail v.heap x.heap p g' k, ks),
            ))

  -- The list of the object, once the given ones are appended.
  abbrev pub append_all : List UserPtr → UserR → UserR
  append_all ps r = record r { referring_user_users = r.referring_user_users ++ ps }

  still_points :
      (o : UserPtr) (ps : List UserPtr) (r : Option UserR)
      → PointsAt o r
      → (append_all ps (relations r)).referring_user ≡ some o
  still_points o ps none h = absurd h
  still_points o ps (some r) h = h

  -- Each given object has the key and points to the other end, whose list ends in them.
  abbrev pub AreLinked : Null String → UserPtr → List UserPtr → Heap → Type 0
  AreLinked key o ps h =
      All (HasKey key h) ps
      × All (HasPointer o h) ps
      × ((u : User) × (h.cell o ≡ some u) × EndsIn ps u.r)

  -- The two ends of the links, as far as it makes them; Appended has the rest.
  pub add_referring_user_users-AreLinked :
      (conn : Conn S.Tx) (o : UserPtr) (ps : List UserPtr) (user : User) (w : World S)
      → w.heap.cell o ≡ some user
      → All (Held w.heap) ps
      → Goes
          (add_referring_user_users E conn false o ps w)
          (λ _ v. AreLinked (L.key_assign user.columns.id) o ps v.heap)
  unfolding add_referring_user_users
  add_referring_user_users-AreLinked conn o ps user w here held =
      let key = L.key_assign user.columns.id in
      let pointing = for_each (point_to E o) ps in
      let listing = ensure_r o >> modify_r o (append_all ps) in
      bind-Goes (for_each (add_one E conn false o) ps)
        (λ _. ensure_r o >> (modify_r o (append_all ps) >> pointing)) w
        (keys-Goes conn o ps key ps user w here refl held)
        λ _ v (g, keys).
          let (u, there, later) = g o user here in
          let s = attach-Sets v o u (append_all ps) there in
          let u' : User = record u { r = some (append_all ps (relations u.r)) } in
          let listed = Sets-Grown key o ps listing v o u u' there s (record {
            id = refl;
            keyed = λ x. x;
            points = still_points o ps u.r;
            ends = λ _. ((relations u.r).referring_user_users, refl);
          }) in
          subst (λ (x : Result (Unit {0}) × World S). Goes x (λ _ y. AreLinked key o ps y.heap))
            (then_assoc (ensure_r o) (modify_r o (append_all ps)) pointing v)
            (rw s.runs (
              mapped (pointing s.after)
                (pointers-Goes key o ps ps s.after (
                  All-Held-Each (Later key o ps) v.heap s.after.heap ps listed
                    (All-Held-Each (Later key o ps) w.heap v.heap ps g held)))
                (λ _ x (g', pointers).
                  let (z, last, end) = g' o u' s.here in
                  (
                    HasKeys-Grown key o ps v.heap x.heap ps
                        (Grown-trans key o ps v.heap s.after.heap x.heap listed g') keys,
                    pointers,
                    (z, last, end.ends ((relations u.r).referring_user_users, refl)),
                  ))))
