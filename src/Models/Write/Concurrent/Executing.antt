-- ===== src/Models/Write/Concurrent/Executing.antt =====
-- models/users.go: what a call of `Update` does between its look-up and its store, whatever it found,
-- is what it would do without the cache.
use users_api.Base.{
  ℕ, String, false, Option, none, some, List, [], ◌≡◌, ap, map, refl, ◌==◌, nat_eq, string_eq, inl,
  inr, length, Option-cases, Bool-cases, sym, ◌∙◌,
}
use users_api.Go.Error.{wrap}
use users_api.Go.Exec.{Exec, pure, lift, wrapping, continue, ◌>>=◌}
use users_api.Go.Result.{Result, ok, err, panic, map_err, Attempt, attempt}
use users_api.Models.User.{UserPtr, Column, column_value}
use users_api.Models.Sql.{Conn, Statement, update_columns}
use users_api.Models.Env.{Env, Columns}
use users_api.Models.World.{World, UpdateCache, get_user, change_db, with_db}
use users_api.Models.CacheKey.{make_cache_key}
use users_api.Models.CacheKey.Injective.{make_cache_key-injective}
use users_api.Models.Write.{exec_rows, update_whitelist, build_update}
use users_api.Models.Write.Cached.{IsBuilt, update_uncached, write_columns, write_columns-cache}
use users_api.Models.Write.Concurrent.{
  Phase, started, prepared, reading, looked_up, executed, queued, storing, stored, finished, settle,
  Request, execute,
}

-- A call that is made in one step: before it, and with its result.
pub data Pending : Type 0 where
  waiting : Pending
  answered : Result ℕ → Pending

-- What a call is for those that do not see its cache.
abbrev pub seen : Phase → Pending
seen started = waiting
seen prepared = waiting
seen reading = waiting
seen (looked_up cached) = waiting
seen (executed cached cache n) = answered (ok n)
seen (queued cache n) = answered (ok n)
seen (storing cache n) = answered (ok n)
seen (stored n) = answered (ok n)
seen (finished r) = answered r

module _ (E : Env) where
  open E use {sql as S}

  abbrev pub without_cache : World S → World S
  without_cache w = record w { update_cache = [] }

  abbrev pub forget : {A : Type 0} → A × World S → A × World S
  forget (a, w) = (a, without_cache w)

  exec_rows-forget :
      (failed uncounted : String) (conn : Conn S.Tx) (statement : Statement) (w : World S)
      → exec_rows E failed uncounted conn statement (without_cache w)
        ≡ forget (exec_rows E failed uncounted conn statement w)
  unfolding exec_rows change_db
  exec_rows-forget failed uncounted conn statement w =
      go (attempt (S.exec conn statement w.db).0) (with_db (S.exec conn statement w.db).1 w)
    where
      go :
          (r : Result (Attempt ℕ)) (v : World S)
          → (let x =
                continue
                  (map_err (λ e. wrap e failed) r)
                  (λ x. wrapping (λ e. wrap e uncounted) (lift (attempt x))) in
              x (without_cache v) ≡ forget (x v))
      go (ok n) v = refl
      go (err e) v = refl
      go (panic why) v = refl

  write_columns-forget :
      (conn : Conn S.Tx) (o : UserPtr) (cols : List Column) (w : World S)
      → write_columns E conn o cols (without_cache w) ≡ forget (write_columns E conn o cols w)
  unfolding get_user
  write_columns-forget conn o cols w = elim (Option-cases (w.heap.cell o)) [
    | inl gone ↦ rw (gone, get_user) refl
    | inr (u, found) ↦
        rw (found, get_user)
          (exec_rows-forget "models: unable to update users row"
            "models: failed to get rows affected by update for users" conn
            (update_columns cols (map (λ c. column_value c u.columns) cols) u.columns.id) w)
  ]

  pub uncached-forget :
      (conn : Conn S.Tx) (o : UserPtr) (columns : Columns) (w : World S)
      → update_uncached E conn o columns (without_cache w)
        ≡ forget (update_uncached E conn o columns w)
  unfolding update_uncached build_update
  uncached-forget conn o columns w = elim (Bool-cases (length (update_whitelist E columns) == 0)) [
    | inl empty ↦ rw empty refl
    | inr full ↦ rw full (write_columns-forget conn o (update_whitelist E columns) w)
  ]

  abbrev pub key_of : Request E → String
  key_of q = make_cache_key q.columns []

  -- What a call holds is the statement of its columns.
  abbrev pub Holds : Request E → Phase → Type 0
  Holds q (looked_up (some c)) = IsBuilt E (key_of q, c)
  Holds q (executed none c n) = IsBuilt E (key_of q, c)
  Holds q (queued c n) = IsBuilt E (key_of q, c)
  Holds q (storing c n) = IsBuilt E (key_of q, c)
  Holds q _ = Unit {0}

  abbrev pub Unchanged :
      Request E
      → Option UpdateCache
      → Result (UpdateCache × ℕ) × World S
      → Result ℕ × World S
      → Type 0
  Unchanged q cached (r, w) (s, v) =
      let p = settle (λ (x : UpdateCache × ℕ). executed cached x.0 x.1) r in
      (seen p ≡ answered s) × (w ≡ v) × Holds q p

  keeps :
      (q : Request E) (cached : Option UpdateCache) (c : UpdateCache) (x : Result ℕ × World S)
      → IsBuilt E (key_of q, c)
      → Unchanged q cached (continue x.0 (λ n. pure (c, n)) x.1) x
  keeps q none c (ok n, w) b = (refl, refl, b)
  keeps q (some d) c (ok n, w) b = (refl, refl, tt)
  keeps q cached c (err e, w) b = (refl, refl, tt)
  keeps q cached c (panic why, w) b = (refl, refl, tt)

  -- Behind the look-up, with the statement that was found or built.
  abbrev pub execute_with : Request E → UpdateCache → Exec (World S) (UpdateCache × ℕ)
  execute_with q c = do
    u ← get_user q.object
    n ←
        exec_rows E "models: unable to update users row"
          "models: failed to get rows affected by update for users" q.conn
          (update_columns c.columns (map (λ x. column_value x u.columns) c.columns) u.id)
    pure (c, n)

  execute_with_lem :
      (q : Request E) (c : UpdateCache) (w : World S)
      → execute_with q c w ≡ (do n ← write_columns E q.conn q.object c.columns; pure (c, n)) w
  unfolding get_user
  execute_with_lem q c w = elim (Option-cases (w.heap.cell q.object)) [
    | inl gone ↦ rw (gone, get_user) refl
    | inr (u, found) ↦ rw (found, get_user) refl
  ]

  execute_with-Unchanged :
      (q : Request E) (cached : Option UpdateCache) (c : UpdateCache) (w : World S)
      → IsBuilt E (key_of q, c)
      → Unchanged q cached (execute_with q c w) (write_columns E q.conn q.object c.columns w)
  execute_with-Unchanged q cached c w b =
      rw (execute_with_lem q c w) (keeps q cached c (write_columns E q.conn q.object c.columns w) b)

  pub execute-Unchanged :
      (q : Request E) (cached : Option UpdateCache) (w : World S)
      → Holds q (looked_up cached)
      → Unchanged q cached (execute E q cached w) (update_uncached E q.conn q.object q.columns w)
  unfolding execute update_uncached build_update
  execute-Unchanged q none w b = elim (Bool-cases (length (update_whitelist E q.columns) == 0)) [
    | inl empty ↦ rw empty (refl, refl, tt)
    | inr full ↦ rw full (
        execute_with-Unchanged q none (record { columns = update_whitelist E q.columns }) w
          (q.columns, refl, refl, full))
  ]
  execute-Unchanged q (some c) w b =
      let (columns, key, cols, full) = b in
      let same = (make_cache_key-injective columns q.columns [] [] (sym key)).0 in
      let whitelist : c.columns ≡ update_whitelist E q.columns =
        cols ∙ ap (update_whitelist E) same in
      let full' : (length (update_whitelist E q.columns) == 0) ≡ false =
        sym (ap (λ x. length (update_whitelist E x) == 0) same) ∙ full in
      rw (full', sym whitelist) (execute_with-Unchanged q (some c) c w b)

  -- The statement leaves the cache alone.
  pub uncached-cache :
      (q : Request E) (w : World S)
      → (update_uncached E q.conn q.object q.columns w).1.update_cache ≡ w.update_cache
  unfolding update_uncached build_update
  uncached-cache q w = elim (Bool-cases (length (update_whitelist E q.columns) == 0)) [
    | inl empty ↦ rw empty refl
    | inr full ↦ rw full (write_columns-cache E q.conn q.object (update_whitelist E q.columns) w)
  ]
