-- ===== src/Models/Related.antt =====
-- models/users.go: the relationship between a user and the users that it referred: the getters, the
-- queries over the foreign key, and the operations that set, add and remove. A slice is a value: that
-- two slices may share an array is left out.
pub mod Detach
pub mod Links
pub mod Forget
pub mod Goes
pub mod Later
pub mod Each
pub mod Released
pub mod Added
pub mod Appended
pub mod Replaced
use Prim.Native.Nat.{◌-◌}
use users_api.Base.{
  ℕ, suc, String, string_eq, Bool, true, false, ◌&&◌, Option, none, some, List, [], ◌∷◌, ◌++◌,
  length, ◌==◌, nat_eq, if◌then◌else◌,
}
use users_api.Base.Arrays.{ltb, get_elem?, set, take}
use users_api.Go.Error.{Error, wrap}
use users_api.Go.Exec.{Exec, pure, wrapping, for_each, ◌>>=◌, ◌>>◌}
use users_api.Go.Null.{Null}
use users_api.Models.User.{Column, text, null_text, UserPtr, UserR, User}
use users_api.Models.Where.{QueryMod, eq, where_compare}
use users_api.Models.Sql.{Query, Conn, update_columns, clear_referring}
use users_api.Models.World.{World, get_user, put_user}
use users_api.Models.Env.{Env}
use users_api.Models.Load.{ensure_r, modify_r, set_referring, add_referred}
use users_api.Models.Select.{users}
use users_api.Models.Write.{update}
use users_api.Models.Insert.{insert, exec_only}

-- `GetReferringUser` and `GetReferringUserUsers`, which a nil struct answers with nil
unfoldable pub get_referring_user : Option UserR → Option UserPtr
get_referring_user none = none
get_referring_user (some r) = r.referring_user

unfoldable pub get_referring_user_users : Option UserR → List UserPtr
get_referring_user_users none = []
get_referring_user_users (some r) = r.referring_user_users

-- The entry at the index i is overwritten by the last one, unless it is the last, and the list is cut
-- by one.
unfoldable pub swap_remove : ℕ → List UserPtr → List UserPtr
swap_remove i ps =
    let ln = length ps in
    take (ln - 1) (
      if ltb 1 ln && ltb i (ln - 1)
      then elim (get_elem? ps (ln - 1)) [ some p ↦ set ps i p | none ↦ ps ]
      else ps)

-- The index of the first entry that is the pointer.
unfoldable pub index_of : UserPtr → List UserPtr → Option ℕ
index_of p [] = none
index_of p (q ∷ qs) =
    let rest = index_of p qs in
    if p == q then some 0 else elim rest [ some i ↦ some (suc i) | none ↦ none ]

abbrev pub remove_at : Option ℕ → List UserPtr → List UserPtr
remove_at none ps = ps
remove_at (some i) ps = swap_remove i ps

-- The inner loop of `RemoveReferringUserUsers`, which ends at the first entry that is the pointer.
unfoldable pub detach : UserPtr → List UserPtr → List UserPtr
unfolding index_of swap_remove
detach p ps = remove_at (index_of p ps) ps

module _ (E : Env) where
  open E use {sql as S, library as L, boil as B}

  -- `ReferringUser` and `ReferringUserUsers` of an object, as queries
  unfoldable pub referring_user_query : List QueryMod → User → Query
  unfolding users
  referring_user_query mods o =
      users (where_compare Column.id eq (null_text o.referring_user_id) ∷ mods)

  unfoldable pub referring_user_users_query : List QueryMod → User → Query
  unfolding users
  referring_user_users_query mods o =
      users (mods ++ where_compare Column.referring_user_id eq (text o.id) ∷ [])

  -- An assignment to the foreign key of an object.
  unfoldable pub put_key : UserPtr → Null String → Exec (World S) (Unit {0})
  unfolding get_user put_user
  put_key p key = do
    u ← get_user p
    put_user p (record u { columns = record u.columns { referring_user_id = key } })

  abbrev pub modify_some :
      UserPtr → User → (UserR → UserR) → Option UserR → Exec (World S) (Unit {0})
  modify_some p u f none = pure tt
  modify_some p u f (some r) = put_user p (record u { r = some (f r) })

  -- `if o.R != nil { ... }`
  unfoldable pub modify_loaded : UserPtr → (UserR → UserR) → Exec (World S) (Unit {0})
  unfolding get_user put_user
  modify_loaded p f = do u ← get_user p; modify_some p u f u.r

  -- UPDATE users SET referring_user_id = $1 WHERE id = $2
  unfoldable pub write_key : String → Conn S.Tx → String → String → Exec (World S) (Unit {0})
  unfolding exec_only
  write_key context conn referrer_id user_id =
      wrapping (λ e. wrap e context)
        (exec_only E conn
          (update_columns (Column.referring_user_id ∷ []) (text referrer_id ∷ []) user_id))

  unfoldable pub insert_foreign : Conn S.Tx → UserPtr → Exec (World S) (Unit {0})
  unfolding insert
  insert_foreign conn p =
      wrapping (λ e. wrap e "failed to insert into foreign table") (insert E conn (some p) B.infer)

  -- `SetReferringUser`
  unfoldable pub set_referring_user :
      Conn S.Tx → Bool → UserPtr → UserPtr → Exec (World S) (Unit {0})
  unfolding insert_foreign get_user write_key put_key ensure_r modify_r
  set_referring_user conn inserting o related = do
    if inserting then insert_foreign conn related else pure tt
    ru ← get_user related
    u ← get_user o
    write_key "failed to update local table" conn ru.id u.id
    put_key o (L.key_assign ru.id)
    ensure_r o
    modify_r o (set_referring (some related))
    ensure_r related
    modify_r related (add_referred o)

  abbrev pub next_index : Option ℕ → Option ℕ
  next_index none = none
  next_index (some i) = some (suc i)

  -- The loop of `RemoveReferringUser`: the index of the first entry whose foreign key is not equal to
  -- the given one.
  unfoldable pub index_of_other : Null String → List UserPtr → Exec (World S) (Option ℕ)
  unfolding get_user
  index_of_other key [] = pure none
  index_of_other key (p ∷ ps) =
      let rest = index_of_other key ps in
      do
        u ← get_user p
        if L.key_equal key u.referring_user_id
            then (rest >>= λ found. pure (next_index found))
            else pure (some 0)

  abbrev pub drop_other : UserPtr → UserPtr → Option UserR → Exec (World S) (Unit {0})
  drop_other o related none = pure tt
  drop_other o related (some r) = do
    u ← get_user o
    found ← index_of_other u.referring_user_id r.referring_user_users
    modify_loaded related
        (λ x. record x { referring_user_users = remove_at found x.referring_user_users })

  unfoldable pub forget_referrer : UserPtr → Option UserPtr → Exec (World S) (Unit {0})
  unfolding get_user index_of_other modify_loaded swap_remove
  forget_referrer o none = pure tt
  forget_referrer o (some related) = do rel ← get_user related; drop_other o related rel.r

  -- `RemoveReferringUser`
  unfoldable pub remove_referring_user :
      Conn S.Tx → UserPtr → Option UserPtr → Exec (World S) (Unit {0})
  unfolding put_key update modify_loaded forget_referrer
  remove_referring_user conn o related = do
    put_key o L.key_nil
    wrapping (λ e. wrap e "failed to update local table")
        (update E conn o (B.whitelist (Column.referring_user_id ∷ [])))
    modify_loaded o (set_referring none)
    forget_referrer o related

  -- The body of the first loop of `AddReferringUserUsers`.
  unfoldable pub add_one : Conn S.Tx → Bool → UserPtr → UserPtr → Exec (World S) (Unit {0})
  unfolding insert_foreign get_user write_key put_key
  add_one conn inserting o rel = do
    u ← get_user o
    if inserting then (put_key rel (L.key_assign u.id) >> insert_foreign conn rel) else do
      ru ← get_user rel
      write_key "failed to update foreign table" conn u.id ru.id
      put_key rel (L.key_assign u.id)

  unfoldable pub point_to : UserPtr → UserPtr → Exec (World S) (Unit {0})
  unfolding ensure_r modify_r
  point_to o rel = do ensure_r rel; modify_r rel (set_referring (some o))

  -- `AddReferringUserUsers`
  unfoldable pub add_referring_user_users :
      Conn S.Tx → Bool → UserPtr → List UserPtr → Exec (World S) (Unit {0})
  unfolding add_one ensure_r modify_r point_to for_each
  add_referring_user_users conn inserting o related = do
    for_each (add_one conn inserting o) related
    ensure_r o
    modify_r o (λ r. record r { referring_user_users = r.referring_user_users ++ related })
    for_each (point_to o) related

  -- The body of the loop of `SetReferringUserUsers` over the former entries.
  unfoldable pub release : UserPtr → Exec (World S) (Unit {0})
  unfolding put_key modify_loaded
  release rel = do put_key rel L.key_nil; modify_loaded rel (set_referring none)

  abbrev pub release_all : UserPtr → Option UserR → Exec (World S) (Unit {0})
  release_all o none = pure tt
  release_all o (some r) = do
    for_each release r.referring_user_users
    modify_loaded o (λ x. record x { referring_user_users = [] })

  -- `SetReferringUserUsers`
  unfoldable pub set_referring_user_users :
      Conn S.Tx → Bool → UserPtr → List UserPtr → Exec (World S) (Unit {0})
  unfolding get_user exec_only release modify_loaded for_each add_referring_user_users
  set_referring_user_users conn inserting o related = do
    u ← get_user o
    wrapping (λ e. wrap e "failed to remove relationships before set")
        (exec_only E conn (clear_referring u.id))
    release_all o u.r
    add_referring_user_users conn inserting o related

  -- The body of the first loop of `RemoveReferringUserUsers`.
  unfoldable pub remove_one : Conn S.Tx → UserPtr → Exec (World S) (Unit {0})
  unfolding release update
  remove_one conn rel = do
    release rel
    update E conn rel (B.whitelist (Column.referring_user_id ∷ []))
    pure tt

  -- `RemoveReferringUserUsers`
  unfoldable pub remove_referring_user_users :
      Conn S.Tx → UserPtr → List UserPtr → Exec (World S) (Unit {0})
  unfolding remove_one modify_loaded detach for_each
  remove_referring_user_users conn o related = do
    for_each (remove_one conn) related
    for_each
        (λ rel.
          modify_loaded o
            (λ r. record r { referring_user_users = detach rel r.referring_user_users }))
        related
