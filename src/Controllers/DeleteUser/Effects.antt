-- ===== src/Controllers/DeleteUser/Effects.antt =====
-- internal/controllers/user_controller.go: what `DeleteUser` does to the database and answers.
use users_api.Base.{
  ℕ, String, ◌<>◌, false, List, [], ◌∷◌, ◌≡◌, refl, ap, ◌≢◌, ◌⊎◌, inl, inr, arith, length, ◌==◌,
  nat_eq, Bool-cases, if◌then◌else◌,
}
use users_api.Go.Error.{Error, message, is_no_rows}
use users_api.Go.Result.{ok, done, attempt, Attempt, failed}
use users_api.Go.Exec.{try, lift}
use users_api.Models.User.{UserPtr}
use users_api.Models.Sql.{in_tx}
use users_api.Models.World.{World, with_db, change_db}
use users_api.Models.CacheKey.{itoa}
use users_api.Models.Select.{find_query, find_user}
use users_api.Models.Runs.Reasons.{OneFails}
use users_api.Models.Runs.{IsWf, Ends, Holds, Runs-Ends}
use users_api.Models.Runs.Steps.{pure-Runs, try-Ends}
use users_api.Models.Runs.Related.{NoSelectHooks}
use users_api.Models.Runs.Finish.{find_user-Runs}
use users_api.Controllers.Types.{
  UserDevice, Reply, json_user, json_check, json_error, send_status, UserController,
}
use users_api.Controllers.Request.{Request, get_user_id, error_response_handler}
use users_api.Controllers.DeleteUser.{
  answer_error, with_rollback, delete_unless_devices, delete_and_commit, find_failed, delete_in_tx,
  delete_user,
}

-- An answer that does not tell of a deletion.
abbrev pub IsRefusal : Reply → Type 0
IsRefusal (send_status n) = ⊥
IsRefusal (json_user out) = ⊥
IsRefusal (json_check out) = ⊥
IsRefusal (json_error n text) = (n ≡ 409) ⊎ (n ≡ 500)

module _ (C : UserController) (quiet : NoSelectHooks C.env) where
  open C.env use {sql as S, library as L}

  answer_error-Ends :
      {F : Type 0}
      → (w : World S) → IsWf w.heap
      → (n : ℕ) (e : Error) → (n ≡ 409) ⊎ (n ≡ 500)
      → Ends F w (answer_error C n e w) (λ a _. IsRefusal a)
  unfolding error_response_handler
  answer_error-Ends w wf n e s = Runs-Ends (answer_error C n e) (pure-Runs _ wf s)

  nonempty : (d : UserDevice) (ds : List UserDevice) → (length (d ∷ ds) == 0) ≡ false
  nonempty d ds = ground arith

  -- With at least one device, the handler answers 409.
  counted-Ends :
      {F : Type 0}
      → (w : World S) → IsWf w.heap
      → (tx : S.Tx) (user : UserPtr) (ds : List UserDevice) → ds ≢ []
      → Ends F w
          ((if length ds == 0
              then delete_and_commit C tx user
              else answer_error C 409
                  (message ("user must delete " <> (itoa (length ds) <> " devices first"))))
            w)
          (λ a _. IsRefusal a)
  counted-Ends w wf tx user [] some_device = absurd (some_device refl)
  counted-Ends w wf tx user (d ∷ ds) some_device = rw (nonempty d ds) (
      answer_error-Ends w wf 409
        (message ("user must delete " <> (itoa (length (d ∷ ds)) <> " devices first"))) (inl refl))

  -- With a device, or with no answer about them, the handler ends before the deletion.
  devices-Ends :
      {F : Type 0}
      → (w : World S) → IsWf w.heap
      → (tx : S.Tx) (user_id : String) (user : UserPtr) → C.list_user_devices user_id ≢ done []
      → Ends F w (delete_unless_devices C tx user_id user w) (λ a _. IsRefusal a)
  unfolding delete_unless_devices
  devices-Ends w wf tx user_id user busy = listed (C.list_user_devices user_id) busy
    where
      listed :
          {F : Type 0}
          → (r : Attempt (List UserDevice)) → r ≢ done []
          → Ends F w
              (try
                (lift (attempt r))
                (λ devices.
                  if length devices == 0
                  then delete_and_commit C tx user
                  else answer_error C 409 (
                      message ("user must delete " <> (itoa (length devices) <> " devices first"))))
                (answer_error C 500)
                w)
              (λ a _. IsRefusal a)
      listed (done ds) n = counted-Ends w wf tx user ds (λ nothing. n (ap done nothing))
      listed (failed e) n = answer_error-Ends w wf 500 e (inr refl)

  find_failed-Ends :
      {F : Type 0}
      → (w : World S) → IsWf w.heap
      → (user_id : String) (e : Error) → F
      → Ends F w (find_failed C user_id e w) (λ a _. IsRefusal a)
  find_failed-Ends w wf user_id e why = elim (Bool-cases (is_no_rows e)) [
    | inl missing ↦ rw missing (record { wf = wf; db = refl; cache = refl; result = why })
    | inr other ↦ rw other (answer_error-Ends w wf 500 e (inr refl))
  ]

  in_tx-Ends :
      (w : World S)
      → IsWf w.heap
      → (tx : S.Tx) (user_id : String) → C.list_user_devices user_id ≢ done []
      → Ends
          (OneFails C.env (in_tx tx) (find_query user_id) w.db)
          w
          (delete_in_tx C user_id tx w)
          (λ a _. IsRefusal a)
  unfolding delete_in_tx
  in_tx-Ends w wf tx user_id busy =
      try-Ends (find_user C.env (in_tx tx) user_id) _ (find_failed C user_id)
        (find_user-Runs C.env quiet w wf (in_tx tx) user_id)
        (λ user v wfv _ _ _. devices-Ends v wfv tx user_id user busy)
        (λ e v wfv _ db why. find_failed-Ends v wfv user_id e why)

  -- `DeleteUser`, once its transaction has begun, deletes nothing for a subject with devices, or
  -- without an answer about them: what it does to the database is to begin the transaction and to
  -- roll it back, and it answers 409 or 500, returns an error only if its query for the user
  -- fails in the transaction (one that finds no row included), and never panics. This holds from
  -- a well-formed heap and with no hook on selects.
  pub delete_user-IsRefusal :
      (w : World S) (c : Request) (user_id : String) (tx : S.Tx) (begun : S.Db)
      → IsWf w.heap
      → get_user_id c ≡ ok user_id
      → C.list_user_devices user_id ≢ done []
      → S.begin_tx w.db ≡ (done tx, begun)
      → Holds (delete_user C c w).0 (OneFails C.env (in_tx tx) (find_query user_id) begun) IsRefusal
        × ((delete_user C c w).1.db ≡ S.rollback tx begun)
  unfolding delete_user change_db with_rollback
  delete_user-IsRefusal w c user_id tx begun wf subject busy began =
      let h = in_tx-Ends (with_db begun w) wf tx user_id busy in
      rw (subject, began) (h.result, ap (S.rollback tx) h.db)
