-- ===== src/Models/Hooks/None.antt =====
-- models/users.go: without registered hooks the calls of the hooks do nothing.
use mathlib.Core.Path.{fun_ext}
use users_api.Base.{List, [], ◌≡◌, ap, arith}
use users_api.Go.Exec.{pure, for_each}
use users_api.Models.User.{UserPtr}
use users_api.Models.Sql.{Sql, Conn}
use users_api.Models.World.{Ctx, UserHook}
use users_api.Models.Hooks.{
  Hooks, no_hooks, run_hooks, do_after_select_hooks, do_before_insert_hooks, do_after_insert_hooks,
  do_before_update_hooks, do_after_update_hooks, do_before_delete_hooks, do_after_delete_hooks,
  do_before_upsert_hooks, do_after_upsert_hooks,
}

module _ {S : Sql} (ctx : Ctx) (conn : Conn S.Tx) (o : UserPtr) where
  run_hooks-nil : (hs : List (UserHook S)) → hs ≡ [] → run_hooks ctx hs conn o ≡ pure tt
  unfolding run_hooks for_each
  run_hooks-nil hs none_left = fun_ext (λ w. rw none_left (ground arith))

module _ {S : Sql} (h : Hooks S) (quiet : h ≡ no_hooks) (ctx : Ctx) (conn : Conn S.Tx)
    (o : UserPtr) where
  pub after_select-pure : do_after_select_hooks ctx h conn o ≡ pure tt
  unfolding do_after_select_hooks
  after_select-pure =
      run_hooks-nil ctx conn o h.after_select_hooks
        (ap (λ (g : Hooks S). g.after_select_hooks) quiet)

  pub before_insert-pure : do_before_insert_hooks ctx h conn o ≡ pure tt
  unfolding do_before_insert_hooks
  before_insert-pure =
      run_hooks-nil ctx conn o h.before_insert_hooks
        (ap (λ (g : Hooks S). g.before_insert_hooks) quiet)

  pub after_insert-pure : do_after_insert_hooks ctx h conn o ≡ pure tt
  unfolding do_after_insert_hooks
  after_insert-pure =
      run_hooks-nil ctx conn o h.after_insert_hooks
        (ap (λ (g : Hooks S). g.after_insert_hooks) quiet)

  pub before_update-pure : do_before_update_hooks ctx h conn o ≡ pure tt
  unfolding do_before_update_hooks
  before_update-pure =
      run_hooks-nil ctx conn o h.before_update_hooks
        (ap (λ (g : Hooks S). g.before_update_hooks) quiet)

  pub after_update-pure : do_after_update_hooks ctx h conn o ≡ pure tt
  unfolding do_after_update_hooks
  after_update-pure =
      run_hooks-nil ctx conn o h.after_update_hooks
        (ap (λ (g : Hooks S). g.after_update_hooks) quiet)

  pub before_delete-pure : do_before_delete_hooks ctx h conn o ≡ pure tt
  unfolding do_before_delete_hooks
  before_delete-pure =
      run_hooks-nil ctx conn o h.before_delete_hooks
        (ap (λ (g : Hooks S). g.before_delete_hooks) quiet)

  pub after_delete-pure : do_after_delete_hooks ctx h conn o ≡ pure tt
  unfolding do_after_delete_hooks
  after_delete-pure =
      run_hooks-nil ctx conn o h.after_delete_hooks
        (ap (λ (g : Hooks S). g.after_delete_hooks) quiet)

  pub before_upsert-pure : do_before_upsert_hooks ctx h conn o ≡ pure tt
  unfolding do_before_upsert_hooks
  before_upsert-pure =
      run_hooks-nil ctx conn o h.before_upsert_hooks
        (ap (λ (g : Hooks S). g.before_upsert_hooks) quiet)

  pub after_upsert-pure : do_after_upsert_hooks ctx h conn o ≡ pure tt
  unfolding do_after_upsert_hooks
  after_upsert-pure =
      run_hooks-nil ctx conn o h.after_upsert_hooks
        (ap (λ (g : Hooks S). g.after_upsert_hooks) quiet)
