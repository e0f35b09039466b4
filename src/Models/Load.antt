-- ===== src/Models/Load.antt =====
-- models/users.go: `LoadReferringUser` and `LoadReferringUserUsers`, which fetch the other end of
-- the relationship for one object or for a slice of objects, and link both ends by pointers.
pub mod Linked
pub mod Keeps
pub mod Linking
pub mod Fetching
pub mod Referrers
pub mod One
use users_api.Base.{
  String, Bool, Option, none, some, List, [], ◌∷◌, ◌++◌, map, contains, Eq, string_eq,
  if◌then◌else◌,
}
use users_api.Go.Error.{wrap}
use users_api.Go.Result.{attempt}
use users_api.Go.Exec.{Exec, pure, crash, wrapping, for_each, ◌>>=◌, ◌>>◌, lift}
use users_api.Go.Null.{Null, null_eq}
use users_api.Models.User.{Column, Value, text, null_text, Row, UserPtr, UserR, User, empty_r}
use users_api.Models.Where.{
  QueryMod, where_in, from_table, load, referring_user, referring_user_users,
}
use users_api.Models.Sql.{Conn, Sql}
use users_api.Models.World.{World, new_user, get_user, put_user, read_db}
use users_api.Models.Hooks.{do_after_select_hooks}
use users_api.Models.Env.{Env}

abbrev pub set_referring : Option UserPtr → UserR → UserR
set_referring target r = record r { referring_user = target }

abbrev pub add_referred : UserPtr → UserR → UserR
add_referred q r = record r { referring_user_users = r.referring_user_users ++ q ∷ [] }

module _ {S : Sql} where
  abbrev pub give_r : UserPtr → User → Option UserR → Exec (World S) (Unit {0})
  give_r p u none = put_user p (record u { r = some empty_r })
  give_r p u (some _) = pure tt

  -- `if obj.R == nil { obj.R = &userR{} }`
  unfoldable pub ensure_r : UserPtr → Exec (World S) (Unit {0})
  unfolding get_user put_user
  ensure_r p = do u ← get_user p; give_r p u u.r

  abbrev pub change_r : UserPtr → User → (UserR → UserR) → Option UserR → Exec (World S) (Unit {0})
  change_r p u f none = crash "nil userR"
  change_r p u f (some r) = put_user p (record u { r = some (f r) })

  -- An assignment to a field of `obj.R`.
  unfoldable pub modify_r : UserPtr → (UserR → UserR) → Exec (World S) (Unit {0})
  unfolding get_user put_user
  modify_r p f = do u ← get_user p; change_r p u f u.r

  -- The objects of the rows that a query returned.
  unfoldable pub new_users : List Row → Exec (World S) (List UserPtr)
  unfolding new_user
  new_users [] = pure []
  new_users (row ∷ rows) = do
    p ← new_user (record { columns = row; r = none })
    ps ← new_users rows
    pure (p ∷ ps)

-- The texts of the errors that tell the two loaders apart.
pub record Wording : Type 0 where
  pub loading : String
  pub binding : String
  pub closing : String

abbrev user_wording : Wording
user_wording = record {
  loading = "failed to eager load User";
  binding = "failed to bind eager loaded slice User";
  closing = "failed to close results of eager load for users";
}

abbrev users_wording : Wording
users_wording = record {
  loading = "failed to eager load users";
  binding = "failed to bind eager loaded slice users";
  closing = "failed to close results in eager load on users";
}

-- A key is put into the set `args` once.
abbrev pub add_key {ℓ} : {A : Type ℓ} ⦃e : Eq A⦄ → A → List A → List A
add_key k keys = if contains keys k then keys else keys ++ k ∷ []

module _ (E : Env) where
  open E use {sql as S, library as L}

  -- The loop that collects the foreign keys that are not null.
  unfoldable pub collect_foreign_keys :
      List UserPtr → List (Null String) → Exec (World S) (List (Null String))
  unfolding ensure_r
  collect_foreign_keys [] keys = pure keys
  collect_foreign_keys (p ∷ ps) keys = do
    ensure_r p
    u ← get_user p
    collect_foreign_keys ps
        (if L.key_is_nil u.referring_user_id then keys else add_key u.referring_user_id keys)

  -- The loop that collects the objects' own keys.
  unfoldable pub collect_ids : List UserPtr → List String → Exec (World S) (List String)
  unfolding ensure_r
  collect_ids [] keys = pure keys
  collect_ids (p ∷ ps) keys = do ensure_r p; u ← get_user p; collect_ids ps (add_key u.id keys)

  -- The query for the other ends, with its four error returns, and the hooks on what it found.
  unfoldable pub fetch_related :
      Wording → Column → List Value → Conn S.Tx → Exec (World S) (List UserPtr)
  unfolding new_users do_after_select_hooks read_db for_each
  fetch_related say column args conn = do
    results ←
        wrapping (λ e. wrap e say.loading)
          (read_db (
            S.query_context conn (record {
              mods = from_table "users_api.users" ∷ where_in column args ∷ [];
              select_columns = [];
              limit = none;
            })))
    rows ← wrapping (λ e. wrap e say.binding) (lift (attempt (S.bind_rows results)))
    wrapping (λ e. wrap e say.closing) (lift (attempt (S.close_rows results)))
    wrapping (λ e. wrap e "error occurred during iteration of eager loaded relations for users")
        (lift (attempt (S.rows_error results)))
    found ← new_users rows
    for_each (λ p. do_after_select_hooks E.ctx E.hooks conn p) found
    pure found

  -- `local.R.ReferringUser = foreign`, and `local` is appended to the other end's list.
  unfoldable pub link : UserPtr → UserPtr → Exec (World S) (Unit {0})
  unfolding ensure_r modify_r
  link local foreign = do
    modify_r local (set_referring (some foreign))
    ensure_r foreign
    modify_r foreign (add_referred local)

  -- `queries.Equal(local.ReferringUserID, foreign.ID)`
  unfoldable pub refers_to : UserPtr → UserPtr → Exec (World S) Bool
  unfolding get_user
  refers_to local foreign = do
    l ← get_user local
    f ← get_user foreign
    pure (L.key_equal_id l.referring_user_id f.id)

  -- The inner loop: the first of the fetched objects that the key names, then `break`.
  unfoldable pub link_first : UserPtr → List UserPtr → Exec (World S) (Unit {0})
  unfolding link refers_to
  link_first local [] = pure tt
  link_first local (foreign ∷ rest) = do
    b ← refers_to local foreign
    if b then link local foreign else link_first local rest

  -- `foreign := resultSlice[0]`, if there is one.
  unfoldable pub link_head : UserPtr → List UserPtr → Exec (World S) (Unit {0})
  unfolding link
  link_head object [] = pure tt
  link_head object (foreign ∷ rest) = link object foreign

  -- Nothing is fetched for no key.
  unfoldable pub fetch_referring : Conn S.Tx → List (Null String) → Exec (World S) (List UserPtr)
  unfolding fetch_related
  fetch_referring conn [] = pure []
  fetch_referring conn (k ∷ ks) =
      fetch_related user_wording Column.id (map null_text (L.range_keys (k ∷ ks))) conn

  -- `LoadReferringUser` for one object.
  unfoldable pub load_referring_user : Conn S.Tx → UserPtr → Exec (World S) (Unit {0})
  unfolding collect_foreign_keys fetch_referring link_head
  load_referring_user conn object = do
    keys ← collect_foreign_keys (object ∷ []) []
    found ← fetch_referring conn keys
    link_head object found

  -- `LoadReferringUser` for a slice.
  unfoldable pub load_referring_user_slice : Conn S.Tx → List UserPtr → Exec (World S) (Unit {0})
  unfolding collect_foreign_keys fetch_referring link_first for_each
  load_referring_user_slice conn slice = do
    keys ← collect_foreign_keys slice []
    found ← fetch_referring conn keys
    for_each (λ local. link_first local found) slice

  unfoldable pub fetch_referred : Conn S.Tx → List String → Exec (World S) (List UserPtr)
  unfolding fetch_related
  fetch_referred conn [] = pure []
  fetch_referred conn (k ∷ ks) =
      fetch_related users_wording Column.referring_user_id (map text (L.range_ids (k ∷ ks))) conn

  -- `foreign.R.ReferringUser = object`
  unfoldable pub point_back : UserPtr → UserPtr → Exec (World S) (Unit {0})
  unfolding ensure_r modify_r
  point_back object foreign = do ensure_r foreign; modify_r foreign (set_referring (some object))

  -- `LoadReferringUserUsers` for one object.
  unfoldable pub load_referring_user_users : Conn S.Tx → UserPtr → Exec (World S) (Unit {0})
  unfolding collect_ids fetch_referred modify_r point_back for_each
  load_referring_user_users conn object = do
    ids ← collect_ids (object ∷ []) []
    found ← fetch_referred conn ids
    modify_r object (λ r. record r { referring_user_users = found })
    for_each (point_back object) found

  -- The inner loop over the slice: the first object that the fetched one refers to, then `break`.
  unfoldable pub adopt_first : List UserPtr → UserPtr → Exec (World S) (Unit {0})
  unfolding modify_r point_back refers_to
  adopt_first [] foreign = pure tt
  adopt_first (local ∷ rest) foreign = do
    b ← refers_to foreign local
    if b
        then (modify_r local (add_referred foreign) >> point_back local foreign)
        else adopt_first rest foreign

  -- `LoadReferringUserUsers` for a slice.
  unfoldable pub load_referring_user_users_slice :
      Conn S.Tx → List UserPtr → Exec (World S) (Unit {0})
  unfolding collect_ids fetch_referred adopt_first for_each
  load_referring_user_users_slice conn slice = do
    ids ← collect_ids slice []
    found ← fetch_referred conn ids
    for_each (adopt_first slice) found

  -- Query.Bind calls the `Load` method that each `qm.Load` of the query names, in order.
  unfoldable pub eager_load : Conn S.Tx → List QueryMod → UserPtr → Exec (World S) (Unit {0})
  unfolding load_referring_user load_referring_user_users
  eager_load conn [] p = pure tt
  eager_load conn (load referring_user ∷ mods) p = do
    load_referring_user conn p
    eager_load conn mods p
  eager_load conn (load referring_user_users ∷ mods) p = do
    load_referring_user_users conn p
    eager_load conn mods p
  eager_load conn (_ ∷ mods) p = eager_load conn mods p

  unfoldable pub eager_load_slice :
      Conn S.Tx → List QueryMod → List UserPtr → Exec (World S) (Unit {0})
  unfolding load_referring_user_slice load_referring_user_users_slice
  eager_load_slice conn [] ps = pure tt
  eager_load_slice conn (load referring_user ∷ mods) ps = do
    load_referring_user_slice conn ps
    eager_load_slice conn mods ps
  eager_load_slice conn (load referring_user_users ∷ mods) ps = do
    load_referring_user_users_slice conn ps
    eager_load_slice conn mods ps
  eager_load_slice conn (_ ∷ mods) ps = eager_load_slice conn mods ps
