-- ===== src/Models/Write.antt =====
-- models/users.go: `Update`, `Delete`, and the updates and deletions of a query or a slice.
pub mod Cached
pub mod Concurrent
use users_api.Base.{
  ℕ, String, Option, none, some, List, [], ◌∷◌, map, ◌==◌, string_eq, nat_eq, length, if◌then◌else◌,
}
use users_api.Go.Error.{message, wrap}
use users_api.Go.Result.{ok, attempt}
use users_api.Go.Exec.{Exec, pure, raise, lift, gets, wrapping, for_each, ◌>>=◌, ◌>>◌}
use users_api.Models.User.{
  Column, Value, UserPtr, column_value, user_all_columns, user_primary_key_columns,
}
use users_api.Models.Sql.{
  Query, Conn, Statement, update_columns, delete_id, delete_ids, update_ids, delete_query,
  update_query,
}
use users_api.Models.World.{World, UpdateCache, get_user, change_db}
use users_api.Models.Hooks.{
  do_before_update_hooks, do_after_update_hooks, do_before_delete_hooks, do_after_delete_hooks,
}
use users_api.Models.Env.{Env, Columns}
use users_api.Models.Cache.{lookup_cache, or_build, remember}
use users_api.Models.CacheKey.{make_cache_key}
use users_api.Models.Select.{get_ids}

module _ (E : Env) where
  open E use {sql as S, boil as B}

  -- `ExecContext`, then `RowsAffected`, each with the context of its error.
  unfoldable pub exec_rows : String → String → Conn S.Tx → Statement → Exec (World S) ℕ
  unfolding change_db
  exec_rows failed uncounted conn statement = do
    result ← wrapping (λ e. wrap e failed) (change_db (S.exec conn statement))
    wrapping (λ e. wrap e uncounted) (lift (attempt result))

  -- The columns that `Update` writes: `created_at` only if a whitelist names it.
  unfoldable pub update_whitelist : Columns → List Column
  update_whitelist columns =
      let wl = B.update_column_set columns user_all_columns user_primary_key_columns in
      if B.is_whitelist columns then wl else B.set_complement wl (Column.created_at ∷ [])

  -- `if !cached { userUpdateCache[key] = cache }`
  unfoldable pub store_update :
      Option UpdateCache → String → UpdateCache → Exec (World S) (Unit {0})
  store_update cached key c w =
      (ok tt, record w { update_cache = remember cached key c w.update_cache })

  unfoldable pub build_update : Columns → Exec (World S) UpdateCache
  unfolding update_whitelist
  build_update columns =
      if length (update_whitelist columns) == 0
      then raise (message "models: unable to update users, could not build whitelist")
      else pure (record { columns = update_whitelist columns })

  -- `Update`
  unfoldable pub update : Conn S.Tx → UserPtr → Columns → Exec (World S) ℕ
  unfolding do_before_update_hooks make_cache_key build_update get_user exec_rows store_update
      do_after_update_hooks
  update conn o columns = do
    do_before_update_hooks E.ctx E.hooks conn o
    let key = make_cache_key columns []
    cached ← gets (λ w. lookup_cache key w.update_cache)
    cache ← or_build cached (build_update columns)
    u ← get_user o
    rows_aff ←
        exec_rows "models: unable to update users row"
          "models: failed to get rows affected by update for users" conn
          (update_columns cache.columns (map (λ c. column_value c u.columns) cache.columns) u.id)
    store_update cached key cache
    do_after_update_hooks E.ctx E.hooks conn o
    pure rows_aff

  -- `UpdateAll` of a query
  unfoldable pub update_all : Conn S.Tx → Query → List (Column × Value) → Exec (World S) ℕ
  unfolding exec_rows
  update_all conn q cols =
      exec_rows "models: unable to update all for users"
        "models: unable to retrieve rows affected for users" conn (update_query q cols)

  -- `UpdateAll` of a slice
  unfoldable pub update_all_slice :
      Conn S.Tx → List UserPtr → List (Column × Value) → Exec (World S) ℕ
  unfolding exec_rows get_ids
  update_all_slice conn [] cols = pure 0
  update_all_slice conn (o ∷ os) cols =
      if length cols == 0
      then raise (message "models: update all requires at least one column argument")
      else do
        ids ← get_ids E (o ∷ os)
        exec_rows "models: unable to update all in user slice"
            "models: unable to retrieve rows affected all in update all user" conn
            (update_ids cols ids)

  -- `Delete`
  unfoldable pub delete : Conn S.Tx → Option UserPtr → Exec (World S) ℕ
  unfolding do_before_delete_hooks get_user exec_rows do_after_delete_hooks
  delete conn none = raise (message "models: no User provided for delete")
  delete conn (some o) = do
    do_before_delete_hooks E.ctx E.hooks conn o
    u ← get_user o
    rows_aff ←
        exec_rows "models: unable to delete from users"
          "models: failed to get rows affected by delete for users" conn (delete_id u.id)
    do_after_delete_hooks E.ctx E.hooks conn o
    pure rows_aff

  -- `DeleteAll` of a query
  unfoldable pub delete_all : Conn S.Tx → Option Query → Exec (World S) ℕ
  unfolding exec_rows
  delete_all conn none = raise (message "models: no userQuery provided for delete all")
  delete_all conn (some q) =
      exec_rows "models: unable to delete all from users"
        "models: failed to get rows affected by deleteall for users" conn (delete_query q)

  -- `if len(hooks) != 0 { for _, obj := range o { ... } }`
  abbrev each_unless_empty {κ} :
      {H : Type κ}
      → List H
      → (UserPtr → Exec (World S) (Unit {0}))
      → List UserPtr
      → Exec (World S) (Unit {0})
  each_unless_empty [] f os = pure tt
  each_unless_empty (h ∷ hs) f os = for_each f os

  -- `DeleteAll` of a slice
  unfoldable pub delete_all_slice : Conn S.Tx → List UserPtr → Exec (World S) ℕ
  unfolding exec_rows get_ids do_before_delete_hooks do_after_delete_hooks for_each
  delete_all_slice conn [] = pure 0
  delete_all_slice conn (o ∷ os) = do
    each_unless_empty E.hooks.before_delete_hooks
        (λ obj. do_before_delete_hooks E.ctx E.hooks conn obj) (o ∷ os)
    ids ← get_ids E (o ∷ os)
    rows_aff ←
        exec_rows "models: unable to delete all from user slice"
          "models: failed to get rows affected by deleteall for users" conn (delete_ids ids)
    each_unless_empty E.hooks.after_delete_hooks
        (λ obj. do_after_delete_hooks E.ctx E.hooks conn obj) (o ∷ os)
    pure rows_aff
