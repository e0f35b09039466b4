-- ===== src/Models/Hooks.antt =====
-- models/users.go: the hooks of the nine hook points, their registration and their calls.
pub mod None
pub mod Order
use users_api.Base.{List, [], ◌∷◌, ◌++◌, if◌then◌else◌}
use users_api.Go.Exec.{Exec, pure, for_each}
use users_api.Models.User.{UserPtr}
use users_api.Models.Sql.{Sql, Conn}
use users_api.Models.World.{World, Ctx, UserHook}

-- boil.HookPoint
pub data HookPoint : Type 0 where
  after_select_hook before_insert_hook after_insert_hook before_update_hook after_update_hook :
      HookPoint
  before_delete_hook after_delete_hook before_upsert_hook after_upsert_hook : HookPoint

-- The package's nine lists of hooks.
pub record Hooks (S : Sql) : Type 0 where
  pub after_select_hooks : List (UserHook S)
  pub before_insert_hooks : List (UserHook S)
  pub after_insert_hooks : List (UserHook S)
  pub before_update_hooks : List (UserHook S)
  pub after_update_hooks : List (UserHook S)
  pub before_delete_hooks : List (UserHook S)
  pub after_delete_hooks : List (UserHook S)
  pub before_upsert_hooks : List (UserHook S)
  pub after_upsert_hooks : List (UserHook S)

module _ {S : Sql} where
  -- What the package starts with. The program registers no hook.
  abbrev pub no_hooks : Hooks S
  no_hooks = record {
    after_select_hooks = [];
    before_insert_hooks = [];
    after_insert_hooks = [];
    before_update_hooks = [];
    after_update_hooks = [];
    before_delete_hooks = [];
    after_delete_hooks = [];
    before_upsert_hooks = [];
    after_upsert_hooks = [];
  }

  -- `AddUserHook`: the hook is appended to the list of its point.
  unfoldable pub add_user_hook : HookPoint → UserHook S → Hooks S → Hooks S
  add_user_hook after_select_hook f h = record h {
    after_select_hooks = h.after_select_hooks ++ f ∷ [];
  }
  add_user_hook before_insert_hook f h = record h {
    before_insert_hooks = h.before_insert_hooks ++ f ∷ [];
  }
  add_user_hook after_insert_hook f h = record h {
    after_insert_hooks = h.after_insert_hooks ++ f ∷ [];
  }
  add_user_hook before_update_hook f h = record h {
    before_update_hooks = h.before_update_hooks ++ f ∷ [];
  }
  add_user_hook after_update_hook f h = record h {
    after_update_hooks = h.after_update_hooks ++ f ∷ [];
  }
  add_user_hook before_delete_hook f h = record h {
    before_delete_hooks = h.before_delete_hooks ++ f ∷ [];
  }
  add_user_hook after_delete_hook f h = record h {
    after_delete_hooks = h.after_delete_hooks ++ f ∷ [];
  }
  add_user_hook before_upsert_hook f h = record h {
    before_upsert_hooks = h.before_upsert_hooks ++ f ∷ [];
  }
  add_user_hook after_upsert_hook f h = record h {
    after_upsert_hooks = h.after_upsert_hooks ++ f ∷ [];
  }

  -- The body that the nine `do...Hooks` methods share: in order, until one fails.
  unfoldable pub run_hooks :
      Ctx → List (UserHook S) → Conn S.Tx → UserPtr → Exec (World S) (Unit {0})
  unfolding for_each
  run_hooks ctx hooks conn o =
      if ctx.hooks_skipped then pure tt else for_each (λ hook. hook conn o) hooks

  module _ (ctx : Ctx) (h : Hooks S) (conn : Conn S.Tx) (o : UserPtr) where
    unfoldable pub do_after_select_hooks : Exec (World S) (Unit {0})
    unfolding run_hooks
    do_after_select_hooks = run_hooks ctx h.after_select_hooks conn o

    unfoldable pub do_before_insert_hooks : Exec (World S) (Unit {0})
    unfolding run_hooks
    do_before_insert_hooks = run_hooks ctx h.before_insert_hooks conn o

    unfoldable pub do_after_insert_hooks : Exec (World S) (Unit {0})
    unfolding run_hooks
    do_after_insert_hooks = run_hooks ctx h.after_insert_hooks conn o

    unfoldable pub do_before_update_hooks : Exec (World S) (Unit {0})
    unfolding run_hooks
    do_before_update_hooks = run_hooks ctx h.before_update_hooks conn o

    unfoldable pub do_after_update_hooks : Exec (World S) (Unit {0})
    unfolding run_hooks
    do_after_update_hooks = run_hooks ctx h.after_update_hooks conn o

    unfoldable pub do_before_delete_hooks : Exec (World S) (Unit {0})
    unfolding run_hooks
    do_before_delete_hooks = run_hooks ctx h.before_delete_hooks conn o

    unfoldable pub do_after_delete_hooks : Exec (World S) (Unit {0})
    unfolding run_hooks
    do_after_delete_hooks = run_hooks ctx h.after_delete_hooks conn o

    unfoldable pub do_before_upsert_hooks : Exec (World S) (Unit {0})
    unfolding run_hooks
    do_before_upsert_hooks = run_hooks ctx h.before_upsert_hooks conn o

    unfoldable pub do_after_upsert_hooks : Exec (World S) (Unit {0})
    unfolding run_hooks
    do_after_upsert_hooks = run_hooks ctx h.after_upsert_hooks conn o
