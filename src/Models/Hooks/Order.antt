-- ===== src/Models/Hooks/Order.antt =====
-- models/users.go: in which order the registered hooks run.
use users_api.Base.{false, List, [], ◌∷◌, ◌++◌, ◌≡◌, refl}
use users_api.Go.Result.{Result, ok, err, panic}
use users_api.Go.Exec.{Exec, pure, continue, for_each, ◌>>◌}
use users_api.Models.User.{UserPtr}
use users_api.Models.Sql.{Sql, Conn}
use users_api.Models.World.{World, Ctx, UserHook}
use users_api.Models.Hooks.{
  HookPoint, after_select_hook, before_insert_hook, after_insert_hook, before_update_hook,
  after_update_hook, before_delete_hook, after_delete_hook, before_upsert_hook, after_upsert_hook,
  Hooks, add_user_hook, run_hooks, do_after_select_hooks, do_before_insert_hooks,
  do_after_insert_hooks, do_before_update_hooks, do_after_update_hooks, do_before_delete_hooks,
  do_after_delete_hooks, do_before_upsert_hooks, do_after_upsert_hooks,
}

module _ {S : Type 0} where
  unit_right : (r : Result (Unit {0})) (s : S) → continue r (λ _. pure tt) s ≡ (r, s)
  unit_right (ok a) s = refl
  unit_right (err e) s = refl
  unit_right (panic why) s = refl

  continue-snoc :
      (r : Result (Unit {0})) (h f g : Exec S (Unit {0})) (s : S)
      → ((v : S) → h v ≡ (f >> g) v)
      → continue r (λ _. h) s ≡ (let (r', s') = continue r (λ _. f) s in continue r' (λ _. g) s')
  continue-snoc (ok a) h f g s e = e s
  continue-snoc (err e) h f g s _ = refl
  continue-snoc (panic why) h f g s _ = refl

  -- One more entry at the end of a loop.
  for_each-snoc :
      {X : Type 0} (f : X → Exec S (Unit {0})) (xs : List X) (x : X) (s : S)
      → for_each f (xs ++ x ∷ []) s ≡ (for_each f xs >> f x) s
  unfolding for_each
  for_each-snoc f [] x s = let (r, s') = f x s in unit_right r s'
  for_each-snoc f (y ∷ ys) x s =
      let (r, s') = f y s in
      continue-snoc r (for_each f (ys ++ x ∷ [])) (for_each f ys) (f x) s' (for_each-snoc f ys x)

module _ {S : Sql} where
  run_hooks-snoc :
      (ctx : Ctx) (hooks : List (UserHook S)) (f : UserHook S) (conn : Conn S.Tx) (o : UserPtr)
      (w : World S)
      → ctx.hooks_skipped ≡ false
      → run_hooks ctx (hooks ++ f ∷ []) conn o w ≡ (run_hooks ctx hooks conn o >> f conn o) w
  unfolding run_hooks
  run_hooks-snoc ctx hooks f conn o w asked =
      rw asked (for_each-snoc (λ hook. hook conn o) hooks f w)

  -- The call of the hooks of a point.
  abbrev pub do_hooks : HookPoint → Ctx → Hooks S → Conn S.Tx → UserPtr → Exec (World S) (Unit {0})
  do_hooks after_select_hook = do_after_select_hooks
  do_hooks before_insert_hook = do_before_insert_hooks
  do_hooks after_insert_hook = do_after_insert_hooks
  do_hooks before_update_hook = do_before_update_hooks
  do_hooks after_update_hook = do_after_update_hooks
  do_hooks before_delete_hook = do_before_delete_hooks
  do_hooks after_delete_hook = do_after_delete_hooks
  do_hooks before_upsert_hook = do_before_upsert_hooks
  do_hooks after_upsert_hook = do_after_upsert_hooks

  -- After `AddUserHook` the hooks of the point run as before and then the new one does, unless one of
  -- them fails; this holds at each of the nine points, in a context that does not skip hooks.
  pub do_hooks-add_user_hook :
      (p : HookPoint) (f : UserHook S) (ctx : Ctx) (h : Hooks S) (conn : Conn S.Tx) (o : UserPtr)
      (w : World S)
      → ctx.hooks_skipped ≡ false
      → do_hooks p ctx (add_user_hook p f h) conn o w ≡ (do_hooks p ctx h conn o >> f conn o) w
  unfolding add_user_hook do_after_select_hooks do_before_insert_hooks do_after_insert_hooks
      do_before_update_hooks do_after_update_hooks do_before_delete_hooks do_after_delete_hooks
      do_before_upsert_hooks do_after_upsert_hooks
  do_hooks-add_user_hook after_select_hook f ctx h conn o w asked =
      run_hooks-snoc ctx h.after_select_hooks f conn o w asked
  do_hooks-add_user_hook before_insert_hook f ctx h conn o w asked =
      run_hooks-snoc ctx h.before_insert_hooks f conn o w asked
  do_hooks-add_user_hook after_insert_hook f ctx h conn o w asked =
      run_hooks-snoc ctx h.after_insert_hooks f conn o w asked
  do_hooks-add_user_hook before_update_hook f ctx h conn o w asked =
      run_hooks-snoc ctx h.before_update_hooks f conn o w asked
  do_hooks-add_user_hook after_update_hook f ctx h conn o w asked =
      run_hooks-snoc ctx h.after_update_hooks f conn o w asked
  do_hooks-add_user_hook before_delete_hook f ctx h conn o w asked =
      run_hooks-snoc ctx h.before_delete_hooks f conn o w asked
  do_hooks-add_user_hook after_delete_hook f ctx h conn o w asked =
      run_hooks-snoc ctx h.after_delete_hooks f conn o w asked
  do_hooks-add_user_hook before_upsert_hook f ctx h conn o w asked =
      run_hooks-snoc ctx h.before_upsert_hooks f conn o w asked
  do_hooks-add_user_hook after_upsert_hook f ctx h conn o w asked =
      run_hooks-snoc ctx h.after_upsert_hooks f conn o w asked
