-- ===== src/Models/Insert/Options.antt =====
-- models/users.go: the options of an `Upsert` whose statement is in the cache.
use users_api.Base.{Bool, some, List, ◌≡◌, refl, nat_eq}
use users_api.Models.User.{Column, User, UserPtr, user_columns_with_default}
use users_api.Models.Sql.{Conn}
use users_api.Go.Result.{ok}
use users_api.Models.World.{World, UpsertCache, put_user}
use users_api.Models.Objects.{get_user_lem, written, get_written}
use users_api.Models.Hooks.{no_hooks}
use users_api.Models.Hooks.None.{before_upsert-pure}
use users_api.Models.Env.{Env, Columns}
use users_api.Models.Cache.{lookup_cache}
use users_api.Models.UpsertQuery.{UpsertOption}
use users_api.Models.Insert.{stamp, stamp_user, upsert_key, upsert}

module _ (E : Env) where
  open E use {sql as S, boil as B}

  pub stamp_user_lem :
      (w : World S) (o : UserPtr) (u : User)
      → w.heap.cell o ≡ some u
      → stamp_user E o w ≡ (ok tt, written o (record u { columns = stamp E u.columns }) w)
  unfolding stamp_user put_user
  stamp_user_lem w o u here = rw (get_user_lem w o u here) refl

  -- An `Upsert`, without hooks, that finds a statement under its key does the same whatever its
  -- options are: a conflict target or a list of updates that differs from that of the first call is
  -- ignored.
  pub upsert-ignores_options :
      (conn : Conn S.Tx) (o : UserPtr) (update_on_conflict : Bool) (conflict : List Column)
      (update_cols insert_cols : Columns) (opts opts' : List UpsertOption) (u : User)
      (c : UpsertCache) (w : World S)
      → E.hooks ≡ no_hooks
      → w.heap.cell o ≡ some u
      → lookup_cache
          (upsert_key update_on_conflict conflict update_cols insert_cols
            (B.non_zero_default_set user_columns_with_default (stamp E u.columns)))
          w.upsert_cache
        ≡ some c
      → upsert E conn (some o) update_on_conflict conflict update_cols insert_cols opts w
        ≡ upsert E conn (some o) update_on_conflict conflict update_cols insert_cols opts' w
  unfolding upsert
  upsert-ignores_options conn o update_on_conflict conflict update_cols insert_cols opts opts' u c w
        quiet here hit =
      rw
        (
          stamp_user_lem w o u here,
          before_upsert-pure E.hooks quiet E.ctx conn o,
          get_written w o (record u { columns = stamp E u.columns }),
          hit,
        )
        refl
