-- ===== src/Models/Runs/Referrers.antt =====
-- The rules for `LoadReferringUser`, for one object and for a slice.
use mathlib.Core.Path.{subst₂}
use users_api.Go.Result.{done, Attempt, attempt, failed}
use users_api.Models.User.{Row, Column, Value, UserPtr}
use users_api.Models.Runs.Related.{
  Hold, Good-Hold, link_head-Runs, link_all, collect_foreign_keys-Runs, Good, Good-Extends,
  Hold-Good, NoSelectHooks, hooks-pure, HasR-All, new_users-Runs, for_each-Runs, units,
}
use users_api.Models.Runs.Reasons.{
  in_query, RelatedFails, query_fails, bind_fails, close_fails, rows_fail, KeysFail, ReferrersFail,
}
use users_api.Base.{String, List, [], ◌∷◌, ◌≡◌, All}
use users_api.Go.Error.{Error}
use users_api.Go.Exec.{pure, for_each, lift, wrapping, ◌>>◌}
use users_api.Go.Null.{Null, null_eq}
use users_api.Models.Sql.{Conn}
use users_api.Models.World.{World, read_db}
use users_api.Models.Hooks.{do_after_select_hooks}
use users_api.Models.Env.{Env}
use users_api.Models.Load.{
  new_users, link_head, link_first, fetch_related, fetch_referring, collect_foreign_keys,
  load_referring_user, load_referring_user_slice, Wording,
}
use users_api.Models.Runs.{
  IsWf, Extends-trans, Runs, HasR, HasColumns, HasR-Extends, bind-Runs, reason-Runs,
}
use users_api.Models.Runs.Steps.{pure-Runs, attempt-Runs, wrapping-Runs, weaken-Runs}

module _ (E : Env) where
  open E use {sql as S, library as L}

  module _ (quiet : NoSelectHooks E) where
    pub hooks-Runs :
        {F : Type 0}
        → (w : World S) → IsWf w.heap
        → (conn : Conn S.Tx) (p : UserPtr)
        → Runs F w (do_after_select_hooks E.ctx E.hooks conn p w) (λ _ _. Unit)
    hooks-Runs w wf conn p = rw (hooks-pure E quiet conn p) (pure-Runs tt wf tt)

    after_hooks :
        {F : Type 0}
        → (w : World S) → IsWf w.heap
        → (conn : Conn S.Tx) (ps : List UserPtr) → Good w.heap ps
        → Runs F w
            ((for_each (λ p. do_after_select_hooks E.ctx E.hooks conn p) ps >> pure ps) w)
            (λ qs v. Good v.heap qs)
    after_hooks w wf conn ps g =
        bind-Runs (for_each (λ p. do_after_select_hooks E.ctx E.hooks conn p) ps) _
          (for_each-Runs (λ p. do_after_select_hooks E.ctx E.hooks conn p) (λ _ _. Unit)
            (λ _ _ _ _ _. tt) (λ v p wfv _. hooks-Runs v wfv conn p) w wf ps (units ps))
          λ _ v wfv xv _ _. pure-Runs ps wfv (Good-Extends ps xv g)

    -- A call of the database, its error with a context.
    wrapped :
        {F : Type 0}
        → {A : Type 0} (w : World S) → IsWf w.heap
        → (f : Error → Error) (r : Attempt A) → ((e : Error) → r ≡ failed e → F)
        → Runs F w (wrapping f (lift (attempt r)) w) (λ a _. r ≡ done a)
    wrapped w wf f r why = wrapping-Runs f (lift (attempt r)) (attempt-Runs r wf (λ _ e. e) why)

    -- Whatever the query fetched, its objects are good.
    pub fetch_related-Runs :
        (w : World S)
        → IsWf w.heap
        → (say : Wording) (column : Column) (args : List Value) (conn : Conn S.Tx)
        → Runs
            (RelatedFails E conn column args w.db)
            w
            (fetch_related E say column args conn w)
            (λ ps v. Good v.heap ps)
    unfolding fetch_related read_db
    fetch_related-Runs w wf say column args conn =
        bind-Runs {Q = λ results _. S.query_context conn (in_query column args) w.db ≡ done results}
          (wrapping _ (read_db (S.query_context conn _))) _ (wrapped w wf _ _ (λ e. query_fails e))
          λ results a wfa _ _ q.
            bind-Runs (wrapping _ (lift (attempt (S.bind_rows results)))) _
              (wrapped a wfa _ _ (λ e. bind_fails results e q))
              λ rows b wfb _ _ _.
                bind-Runs (wrapping _ (lift (attempt (S.close_rows results)))) _
                  (wrapped b wfb _ _ (λ e. close_fails results e q))
                  λ _ c wfc _ _ _.
                    bind-Runs (wrapping _ (lift (attempt (S.rows_error results)))) _
                      (wrapped c wfc _ _ (λ e. rows_fail results e q))
                      λ _ d wfd _ _ _.
                        bind-Runs (new_users rows) _ (new_users-Runs d wfd rows)
                          λ ps e wfe _ _ held.
                            after_hooks e wfe conn ps (Hold-Good e.heap ps rows held)

    pub fetch_referring-Runs :
        (w : World S)
        → IsWf w.heap
        → (conn : Conn S.Tx) (keys : List (Null String))
        → Runs
            (KeysFail E conn keys w.db)
            w
            (fetch_referring E conn keys w)
            (λ ps v. Good v.heap ps)
    unfolding fetch_referring
    fetch_referring-Runs w wf conn [] = pure-Runs [] wf tt
    fetch_referring-Runs w wf conn (k ∷ ks) = fetch_related-Runs w wf _ _ _ conn

    -- Afterwards the object has a relations struct.
    pub load_referring_user-Runs :
        (w : World S)
        → IsWf w.heap
        → (conn : Conn S.Tx) (p : UserPtr) (row : Row) → HasColumns w.heap p row
        → Runs
            (ReferrersFail E conn (row ∷ []) w.db)
            w
            (load_referring_user E conn p w)
            (λ _ v. HasR v.heap p)
    unfolding load_referring_user
    load_referring_user-Runs w wf conn p row c =
        bind-Runs (collect_foreign_keys E (p ∷ []) []) _
          (collect_foreign_keys-Runs E w wf (p ∷ []) (row ∷ []) [] (c, tt))
          λ keys v wfv _ db (collected, h).
            bind-Runs (fetch_referring E conn keys) _
              (reason-Runs (fetch_referring E conn keys) (subst₂ (KeysFail E conn) collected db)
                (fetch_referring-Runs v wfv conn keys))
              λ found u wfu xu _ g.
                weaken-Runs (link_head E p found)
                  (link_head-Runs E u wfu p found (HasR-Extends p xu h.0) g)
                  (λ _ y xy _. HasR-Extends p (Extends-trans xu xy) h.0)

    pub load_slice-Runs :
        (w : World S)
        → IsWf w.heap
        → (conn : Conn S.Tx) (ps : List UserPtr) (rows : List Row) → Hold w.heap ps rows
        → Runs
            (ReferrersFail E conn rows w.db)
            w
            (load_referring_user_slice E conn ps w)
            (λ _ v. All (HasR v.heap) ps)
    unfolding load_referring_user_slice
    load_slice-Runs w wf conn ps rows held =
        bind-Runs (collect_foreign_keys E ps []) _
          (collect_foreign_keys-Runs E w wf ps rows [] held)
          λ keys v wfv _ db (collected, h).
            bind-Runs (fetch_referring E conn keys) _
              (reason-Runs (fetch_referring E conn keys) (subst₂ (KeysFail E conn) collected db)
                (fetch_referring-Runs v wfv conn keys))
              λ found u wfu xu _ k.
                weaken-Runs (for_each (λ local. link_first E local found) ps)
                  (link_all E u wfu found ps k (HasR-All xu ps h))
                  (λ _ y xy _. HasR-All (Extends-trans xu xy) ps h)

    -- The query for the referrers of the rows that the objects hold fails.
    abbrev pub SliceFails : World S → Conn S.Tx → List UserPtr → Type 0
    SliceFails w conn ps = (rows : List Row) × Hold w.heap ps rows × ReferrersFail E conn rows w.db

    -- `LoadReferringUser` of a slice of good pointers, where no hook is registered, never panics,
    -- returns an error only if its one query fails, which is for the foreign keys of the objects,
    -- or an operation on what this query returned does, leaves the database and the columns of all
    -- objects as they were, and keeps the heap well-formed; when it returns without an error, every
    -- object of the slice has a relations struct.
    pub load_referring_user_slice-Runs :
        (w : World S)
        → IsWf w.heap
        → (conn : Conn S.Tx) (ps : List UserPtr) → Good w.heap ps
        → Runs
            (SliceFails w conn ps)
            w
            (load_referring_user_slice E conn ps w)
            (λ _ v. All (HasR v.heap) ps)
    load_referring_user_slice-Runs w wf conn ps g =
        let (rows, held) = Good-Hold w.heap wf ps g in
        reason-Runs (load_referring_user_slice E conn ps) (λ f. (rows, held, f))
          (load_slice-Runs w wf conn ps rows held)
