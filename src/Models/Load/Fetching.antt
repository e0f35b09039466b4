-- ===== src/Models/Load/Fetching.antt =====
-- models/users.go: what `LoadReferringUser` fetches.
use users_api.Models.Runs.Reasons.{in_query}
use mathlib.Core.Path.{subst}
use users_api.Base.{
  All, true, map, ◌<◌, String, none, List, [], ◌∷◌, ◌≡◌, refl, sym, ap, ◌∙◌, arith,
}
use users_api.Go.Result.{attempt, done}
use users_api.Go.Exec.{wrapping, lift, for_each}
use users_api.Go.Null.{Null, null_eq}
use users_api.Models.User.{Column, Value, null_text, Row, UserPtr}
use users_api.Models.Sql.{Conn}
use users_api.Models.World.{World, new_user, read_db}
use users_api.Models.Hooks.{do_after_select_hooks}
use users_api.Models.Env.{Env}
use users_api.Models.Load.{new_users, fetch_related, fetch_referring, Wording}
use users_api.Models.Load.Linked.{IsLinked}
use users_api.Models.Load.Linking.{Below}
use users_api.Models.Load.Keeps.{
  Same, Keeps, attempt-Keeps, pure-Keeps, wrapping-Keeps, bind-Keeps, new_user-Keeps,
}
use users_api.Models.Runs.Related.{Hold, Hold-Good, NoSelectHooks, hooks-pure}

module _ (E : Env) where
  open E use {sql as S, library as L}

  -- The database answers a query for one key with rows that have it.
  abbrev pub IsFaithful : Type 0
  IsFaithful =
      (conn : Conn S.Tx) (k : Null String) (d : S.Db) (cursor : S.Cursor) (rows : List Row)
      → S.query_context conn (in_query Column.id (map null_text (L.range_keys (k ∷ [])))) d
        ≡ done cursor
      → S.bind_rows cursor ≡ done rows
      → All (λ row. L.key_equal_id k row.id ≡ true) rows

  new_users-Keeps :
      (w : World S)
      → IsLinked L w.heap
      → (rows : List Row)
      → Keeps L w (new_users rows w) (λ ps v. Hold v.heap ps rows × Same w.heap v.heap)
  unfolding new_users
  new_users-Keeps w good [] = pure-Keeps L [] good (tt, λ q lt. refl)
  new_users-Keeps w good (row ∷ rows) =
      bind-Keeps L (new_user (record { columns = row; r = none })) _ (new_user-Keeps L w good row)
        λ p v goodv grow (here, same).
          bind-Keeps L (new_users rows) _ (new_users-Keeps v goodv rows)
            λ ps z goodz grows (held, same'). pure-Keeps L (p ∷ ps) goodz (
              (
                record {
                  below = omega (arith, here.below, grows);
                  user = here.user;
                  here = same' p here.below ∙ here.here;
                  same = here.same;
                },
                held,
              ),
              λ q lt. same' q (omega (arith, lt, grow)) ∙ same q lt,
            )

  -- What a query for the other ends returned.
  pub record Fetched (w : World S) (conn : Conn S.Tx) (column : Column) (args : List Value)
      (ps : List UserPtr) (v : World S) : Type 0 where
    pub cursor : S.Cursor
    pub rows : List Row
    pub queried : S.query_context conn (in_query column args) w.db ≡ done cursor
    pub bound : S.bind_rows cursor ≡ done rows
    pub held : Hold v.heap ps rows
    pub same : Same w.heap v.heap

  -- What is fetched for keys.
  abbrev pub Got : World S → Conn S.Tx → List (Null String) → List UserPtr → World S → Type 0
  Got w conn [] ps v = ps ≡ []
  Got w conn (k ∷ ks) ps v = Fetched w conn Column.id (map null_text (L.range_keys (k ∷ ks))) ps v

  pub Got-Below :
      (w : World S) (conn : Conn S.Tx) (keys : List (Null String)) (ps : List UserPtr) (v : World S)
      → Got w conn keys ps v
      → Below v.heap.next ps
  Got-Below w conn [] ps v e = rw e tt
  Got-Below w conn (k ∷ ks) ps v f = Hold-Good v.heap ps f.rows f.held

  module _ (quiet : NoSelectHooks E) where
    pub hooks-Keeps :
        (w : World S)
        → IsLinked L w.heap
        → (conn : Conn S.Tx) (ps : List UserPtr)
        → Keeps L w (for_each (λ p. do_after_select_hooks E.ctx E.hooks conn p) ps w) (λ _ v. v ≡ w)
    unfolding for_each
    hooks-Keeps w good conn [] = pure-Keeps L tt good refl
    hooks-Keeps w good conn (p ∷ ps) = rw (hooks-pure E quiet conn p) (hooks-Keeps w good conn ps)

    pub fetch_related-Keeps :
        (w : World S)
        → IsLinked L w.heap
        → (say : Wording) (column : Column) (args : List Value) (conn : Conn S.Tx)
        → Keeps L w (fetch_related E say column args conn w) (Fetched w conn column args)
    unfolding fetch_related read_db
    fetch_related-Keeps w good say column args conn =
        bind-Keeps L (wrapping _ (read_db (S.query_context conn _))) _
          (wrapping-Keeps L _ (read_db (S.query_context conn _)) (attempt-Keeps L w good _))
          λ results a gooda _ (aw, queried).
            bind-Keeps L (wrapping _ (lift (attempt (S.bind_rows results)))) _
              (wrapping-Keeps L _ (lift (attempt (S.bind_rows results)))
                (attempt-Keeps L a gooda _))
              λ rows b goodb _ (ba, bound).
                bind-Keeps L (wrapping _ (lift (attempt (S.close_rows results)))) _
                  (wrapping-Keeps L _ (lift (attempt (S.close_rows results)))
                    (attempt-Keeps L b goodb _))
                  λ _ c goodc _ (cb, _).
                    bind-Keeps L (wrapping _ (lift (attempt (S.rows_error results)))) _
                      (wrapping-Keeps L _ (lift (attempt (S.rows_error results)))
                        (attempt-Keeps L c goodc _))
                      λ _ d goodd _ (dc, _).
                        bind-Keeps L (new_users rows) _ (new_users-Keeps d goodd rows)
                          λ ps e goode _ (held, same).
                            bind-Keeps L
                              (for_each (λ p. do_after_select_hooks E.ctx E.hooks conn p) ps) _
                              (hooks-Keeps e goode conn ps)
                              λ _ x goodx grows xe.
                                let dw : d ≡ w = dc ∙ (cb ∙ (ba ∙ aw)) in
                                pure-Keeps L ps goodx (record {
                                  cursor = results;
                                  rows = rows;
                                  queried = queried;
                                  bound = bound;
                                  held = subst (λ (y : World S). Hold y.heap ps rows) (sym xe) held;
                                  same = λ q lt.
                                      ap (λ (y : World S). y.heap.cell q) xe
                                      ∙ (same q
                                            (subst (λ (y : World S). q < y.heap.next) (sym dw) lt)
                                          ∙ ap (λ (y : World S). y.heap.cell q) dw);
                                })

    pub fetch_referring-Keeps :
        (w : World S)
        → IsLinked L w.heap
        → (conn : Conn S.Tx) (keys : List (Null String))
        → Keeps L w (fetch_referring E conn keys w) (Got w conn keys)
    unfolding fetch_referring
    fetch_referring-Keeps w good conn [] = pure-Keeps L [] good refl
    fetch_referring-Keeps w good conn (k ∷ ks) =
        fetch_related-Keeps w good _ Column.id (map null_text (L.range_keys (k ∷ ks))) conn
