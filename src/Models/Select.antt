-- ===== src/Models/Select.antt =====
-- models/users.go: the queries and the finishers that read, `FindUser`, `Reload` and `UserExists`.
use users_api.Base.{
  ℕ, String, Bool, none, some, List, [], ◌∷◌, ◌++◌, map, ◌==◌, nat_eq, length, not, if◌then◌else◌,
}
use users_api.Go.Error.{Error, err_no_rows, wrap, is_no_rows}
use users_api.Go.Exec.{Exec, pure, wrapping, for_each, ◌>>=◌, ◌>>◌}
use users_api.Models.User.{Column, text, UserPtr}
use users_api.Models.Where.{QueryMod, eq, where_compare, where_in, from_table}
use users_api.Models.Sql.{Query, Conn}
use users_api.Models.World.{World, UserHook, new_user, get_user, put_user, read_db}
use users_api.Models.Hooks.{do_after_select_hooks}
use users_api.Models.Env.{Env}
use users_api.Models.Load.{new_users, eager_load, eager_load_slice}

-- models/boil_queries.go
unfoldable pub new_query : List QueryMod → Query
new_query mods = record { mods = mods; select_columns = []; limit = none }

-- `Users`
unfoldable pub users : List QueryMod → Query
unfolding new_query nat_eq
users mods =
    let q = new_query (mods ++ from_table "\"users_api\".\"users\"" ∷ []) in
    if length q.select_columns == 0
    then record q { select_columns = "\"users_api\".\"users\".*" ∷ [] }
    else q

-- The query of `FindUser`, a raw `select * from users where id = $1`.
abbrev pub find_query : String → Query
find_query user_id = record {
  mods = where_compare Column.id eq (text user_id) ∷ [];
  select_columns = "*" ∷ [];
  limit = none;
}

-- `sql.ErrNoRows` is returned as it is, any other error with a context.
unfoldable pub keep_no_rows : String → Error → Error
unfolding is_no_rows
keep_no_rows context e = if is_no_rows e then err_no_rows else wrap e context

module _ (E : Env) where
  open E use {sql as S}

  -- `q.Bind(ctx, exec, o)` into one object: the row is scanned and the relations are loaded.
  unfoldable pub bind_object : Conn S.Tx → Query → Exec (World S) UserPtr
  unfolding read_db new_user eager_load
  bind_object conn q = do
    row ← read_db (S.bind_one conn q)
    o ← new_user (record { columns = row; r = none })
    eager_load E conn q.mods o
    pure o

  -- `q.Bind(ctx, exec, &o)` into a slice.
  unfoldable pub bind_objects : Conn S.Tx → Query → Exec (World S) (List UserPtr)
  unfolding read_db new_users eager_load_slice
  bind_objects conn q = do
    rows ← read_db (S.bind_all conn q)
    o ← new_users rows
    eager_load_slice E conn q.mods o
    pure o

  -- `One`
  unfoldable pub one : Conn S.Tx → Query → Exec (World S) UserPtr
  unfolding bind_object keep_no_rows do_after_select_hooks
  one conn q = do
    o ←
        wrapping (keep_no_rows "models: failed to execute a one query for users")
          (bind_object conn (record q { limit = some 1 }))
    do_after_select_hooks E.ctx E.hooks conn o
    pure o

  -- `if len(userAfterSelectHooks) != 0 { for _, obj := range o { ... } }`
  unfoldable pub run_unless_empty :
      List (UserHook S) → Conn S.Tx → List UserPtr → Exec (World S) (Unit {0})
  unfolding for_each do_after_select_hooks
  run_unless_empty [] conn o = pure tt
  run_unless_empty (h ∷ hs) conn o =
      for_each (λ obj. do_after_select_hooks E.ctx E.hooks conn obj) o

  -- `All`
  unfoldable pub all_users : Conn S.Tx → Query → Exec (World S) (List UserPtr)
  unfolding bind_objects run_unless_empty
  all_users conn q = do
    o ←
        wrapping (λ e. wrap e "models: failed to assign all query results to User slice")
          (bind_objects conn q)
    run_unless_empty E.hooks.after_select_hooks conn o
    pure o

  -- `Count`
  unfoldable pub count : Conn S.Tx → Query → Exec (World S) ℕ
  unfolding read_db
  count conn q =
      wrapping (λ e. wrap e "models: failed to count users rows")
        (read_db (S.scan_count conn (record q { select_columns = [] })))

  -- `Exists` of a query
  unfoldable pub exists : Conn S.Tx → Query → Exec (World S) Bool
  unfolding read_db
  exists conn q = do
    n ←
        wrapping (λ e. wrap e "models: failed to check if users exists")
          (read_db (S.scan_count conn (record q { select_columns = []; limit = some 1 })))
    pure (not (n == 0))

  -- `FindUser`, with no list of columns
  unfoldable pub find_user : Conn S.Tx → String → Exec (World S) UserPtr
  unfolding bind_object keep_no_rows do_after_select_hooks
  find_user conn user_id = do
    o ←
        wrapping (keep_no_rows "models: unable to select from users")
          (bind_object conn (find_query user_id))
    do_after_select_hooks E.ctx E.hooks conn o
    pure o

  -- `Reload`: the object is overwritten by the one that was found.
  unfoldable pub reload : Conn S.Tx → UserPtr → Exec (World S) (Unit {0})
  unfolding find_user get_user put_user
  reload conn o = do
    u ← get_user o
    ret ← find_user conn u.id
    fresh ← get_user ret
    put_user o fresh

  -- `ReloadAll`: the slice that replaces the given one.
  unfoldable pub get_ids : List UserPtr → Exec (World S) (List String)
  unfolding get_user
  get_ids [] = pure []
  get_ids (p ∷ ps) = do u ← get_user p; ids ← get_ids ps; pure (u.id ∷ ids)

  unfoldable pub reload_all : Conn S.Tx → List UserPtr → Exec (World S) (List UserPtr)
  unfolding get_ids bind_objects
  reload_all conn [] = pure []
  reload_all conn (o ∷ os) = do
    ids ← get_ids (o ∷ os)
    wrapping (λ e. wrap e "models: unable to reload all in UserSlice")
        (bind_objects conn (record {
          mods = where_in Column.id (map text ids) ∷ [];
          select_columns = "\"users_api\".\"users\".*" ∷ [];
          limit = none;
        }))

  -- `UserExists`, and `Exists` of an object
  unfoldable pub user_exists : Conn S.Tx → String → Exec (World S) Bool
  unfolding read_db
  user_exists conn user_id =
      wrapping (λ e. wrap e "models: unable to check if users exists")
        (read_db (S.scan_exists conn user_id))

  unfoldable pub object_exists : Conn S.Tx → UserPtr → Exec (World S) Bool
  unfolding user_exists get_user
  object_exists conn o = do u ← get_user o; user_exists conn u.id
