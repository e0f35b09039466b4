-- ===== src/Models/Insert.antt =====
-- models/users.go: `Insert` and `Upsert`, with their caches of statements. Binding the columns of
-- the table to fields does not fail, and is left out.
pub mod Key
pub mod Options
pub mod Cached
pub mod Merged
use users_api.Base.{
  ℕ, String, ◌<>◌, Bool, true, false, not, ◌||◌, ◌&&◌, Option, none, some, List, [], ◌∷◌, map,
  length, ◌==◌, nat_eq, if◌then◌else◌,
}
use users_api.Go.Error.{Error, message, wrap, is_no_rows}
use users_api.Go.Result.{Result, ok, err, panic, Attempt, done, failed, attempt}
use users_api.Go.Exec.{Exec, pure, raise, gets, wrapping, ◌>>=◌, ◌>>◌}
use users_api.Models.User.{
  Column, column_name, UserPtr, User, Row, column_value, user_all_columns,
  user_columns_with_default, user_columns_without_default, user_primary_key_columns,
}
use users_api.Models.Sql.{Conn, Statement, insert_row, upsert_row}
use users_api.Models.World.{
  World, InsertCache, UpsertCache, Ctx, get_user, put_user, change_db, with_db,
}
use users_api.Models.Hooks.{
  do_before_insert_hooks, do_after_insert_hooks, do_before_upsert_hooks, do_after_upsert_hooks,
}
use users_api.Models.Env.{Env, Columns}
use users_api.Models.CacheKey.{itoa, concat_names, make_cache_key}
use users_api.Models.Cache.{lookup_cache, or_build, remember}
use users_api.Models.UpsertQuery.{UpsertOption, dialect, build_upsert_query_postgres}

-- The key of `userUpsertCache`
unfoldable pub upsert_key : Bool → List Column → Columns → Columns → List Column → String
unfolding itoa concat_names
upsert_key update_on_conflict conflict update insert nz_defaults =
    (if update_on_conflict then "t" else "f")
    <> ("."
        <> (concat_names conflict
            <> ("."
                <> (itoa update.kind
                    <> (concat_names update.cols
                        <> ("."
                            <> (itoa insert.kind
                                <> (concat_names insert.cols
                                    <> ("." <> concat_names nz_defaults)))))))))

module _ (E : Env) where
  open E use {sql as S, boil as B}

  -- `CreatedAt`, unless timestamps are skipped or the field has a value.
  unfoldable pub stamp : Row → Row
  unfolding nat_eq
  stamp o =
      if not E.ctx.timestamps_skipped && o.created_at == 0
      then record o { created_at = E.now }
      else o

  unfoldable pub stamp_user : UserPtr → Exec (World S) (Unit {0})
  unfolding get_user put_user stamp
  stamp_user p = do u ← get_user p; put_user p (record u { columns = stamp u.columns })

  -- QueryRowContext and Scan into the object: what Scan has written stays, also on an error.
  unfoldable pub query_row :
      Conn S.Tx → Statement → List Column → UserPtr → User → Exec (World S) (Unit {0})
  unfolding put_user
  query_row conn statement returned p u w =
      let ((r, row), d) = S.scan_returning conn statement returned u.columns w.db in
      (attempt r, (put_user p (record u { columns = row }) (with_db d w)).1)

  -- ExecContext, whose result is dropped.
  unfoldable pub exec_only : Conn S.Tx → Statement → Exec (World S) (Unit {0})
  unfolding change_db
  exec_only conn statement = do change_db (S.exec conn statement); pure tt

  -- With columns to return the statement is a query for one row.
  unfoldable pub run_insert :
      Conn S.Tx → Statement → List Column → UserPtr → User → Exec (World S) (Unit {0})
  unfolding query_row exec_only nat_eq
  run_insert conn statement returned p u =
      if not (length returned == 0)
      then query_row conn statement returned p u
      else exec_only conn statement

  unfoldable pub build_insert : Columns → List Column → InsertCache
  build_insert columns nz_defaults =
      let (wl, returned) =
        B.insert_column_set columns user_all_columns user_columns_with_default
          user_columns_without_default nz_defaults in
      record { columns = wl; returned = returned }

  unfoldable pub store_insert :
      Option InsertCache → String → InsertCache → Exec (World S) (Unit {0})
  store_insert cached key c w =
      (ok tt, record w { insert_cache = remember cached key c w.insert_cache })

  -- `Insert`
  unfoldable pub insert : Conn S.Tx → Option UserPtr → Columns → Exec (World S) (Unit {0})
  unfolding stamp_user do_before_insert_hooks get_user make_cache_key build_insert run_insert
      store_insert do_after_insert_hooks
  insert conn none columns = raise (message "models: no users provided for insertion")
  insert conn (some o) columns = do
    stamp_user o
    do_before_insert_hooks E.ctx E.hooks conn o
    u ← get_user o
    let nz_defaults = B.non_zero_default_set user_columns_with_default u.columns
    let key = make_cache_key columns nz_defaults
    cached ← gets (λ w. lookup_cache key w.insert_cache)
    cache ← or_build cached (pure (build_insert columns nz_defaults))
    wrapping (λ e. wrap e "models: unable to insert into users")
        (run_insert conn
          (insert_row cache.columns (map (λ c. column_value c u.columns) cache.columns)
            cache.returned)
          cache.returned o u)
    store_insert cached key cache
    do_after_insert_hooks E.ctx E.hooks conn o

  -- The conflict columns, the primary key where none are given for an update.
  unfoldable pub conflict_columns : Bool → List Column → List Column → List Column
  unfolding nat_eq
  conflict_columns update_on_conflict update conflict =
      if length conflict == 0 && (update_on_conflict && not (length update == 0))
      then user_primary_key_columns
      else conflict

  unfoldable pub build_upsert :
      Bool
      → List Column
      → Columns
      → Columns
      → List UpsertOption
      → List Column
      → Exec (World S) UpsertCache
  unfolding conflict_columns build_upsert_query_postgres column_name nat_eq
  build_upsert update_on_conflict conflict update_cols insert_cols opts nz_defaults =
      let (insert, _) =
        B.insert_column_set insert_cols user_all_columns user_columns_with_default
          user_columns_without_default nz_defaults in
      let update = B.update_column_set update_cols user_all_columns user_primary_key_columns in
      let ret = B.set_complement user_all_columns (B.set_intersect insert update) in
      if update_on_conflict && length update == 0
      then raise (message "models: unable to upsert users, could not build update column list")
      else pure (record {
        query =
            build_upsert_query_postgres E.library dialect "\"users_api\".\"users\""
              update_on_conflict (map column_name ret) (map column_name update)
              (map column_name (conflict_columns update_on_conflict update conflict))
              (map column_name insert) opts;
        columns = insert;
        returned = ret;
      })

  -- Postgres returns nothing where nothing is updated.
  unfoldable pub ignore_no_rows : Exec (World S) (Unit {0}) → Exec (World S) (Unit {0})
  unfolding is_no_rows
  ignore_no_rows m w =
      let (r, w') = m w in
      elim r [
        | ok a ↦ (ok a, w')
        | err e ↦ (if is_no_rows e then ok tt else err e, w')
        | panic why ↦ (panic why, w')
      ]

  unfoldable pub run_upsert : Conn S.Tx → UpsertCache → UserPtr → User → Exec (World S) (Unit {0})
  unfolding query_row exec_only ignore_no_rows nat_eq
  run_upsert conn cache p u =
      let statement = upsert_row cache.query (map (λ c. column_value c u.columns) cache.columns) in
      if not (length cache.returned == 0)
      then ignore_no_rows (query_row conn statement cache.returned p u)
      else exec_only conn statement

  unfoldable pub store_upsert :
      Option UpsertCache → String → UpsertCache → Exec (World S) (Unit {0})
  store_upsert cached key c w =
      (ok tt, record w { upsert_cache = remember cached key c w.upsert_cache })

  -- `Upsert`
  unfoldable pub upsert :
      Conn S.Tx
      → Option UserPtr
      → Bool
      → List Column
      → Columns
      → Columns
      → List UpsertOption
      → Exec (World S) (Unit {0})
  unfolding stamp_user do_before_upsert_hooks get_user upsert_key build_upsert run_upsert
      store_upsert do_after_upsert_hooks
  upsert conn none update_on_conflict conflict update_cols insert_cols opts =
      raise (message "models: no users provided for upsert")
  upsert conn (some o) update_on_conflict conflict update_cols insert_cols opts = do
    stamp_user o
    do_before_upsert_hooks E.ctx E.hooks conn o
    u ← get_user o
    let nz_defaults = B.non_zero_default_set user_columns_with_default u.columns
    let key = upsert_key update_on_conflict conflict update_cols insert_cols nz_defaults
    cached ← gets (λ w. lookup_cache key w.upsert_cache)
    cache ←
        or_build cached
          (build_upsert update_on_conflict conflict update_cols insert_cols opts nz_defaults)
    wrapping (λ e. wrap e "models: unable to upsert users") (run_upsert conn cache o u)
    store_upsert cached key cache
    do_after_upsert_hooks E.ctx E.hooks conn o
