-- ===== src/Models/Write/Concurrent/Alone.antt =====
-- models/users.go: a call of `Update` with no other call between its steps.
use users_api.Base.{
  ℕ, Option, none, some, [], ◌∷◌, ◌≡◌, ap, ◌∙◌, zero, suc, refl, ◌==◌, nat_eq, string_eq, inl, inr,
  length, map, Option-cases, Bool-cases,
}
use users_api.Go.Exec.{Exec, pure, continue, ◌>>=◌, ◌>>◌}
use users_api.Go.Result.{Result, ok, err, panic}
use users_api.Models.User.{column_value}
use users_api.Models.Sql.{update_columns}
use users_api.Models.Env.{Env}
use users_api.Models.World.{World, UpdateCache, get_user}
use users_api.Models.Hooks.{do_before_update_hooks, do_after_update_hooks}
use users_api.Models.Cache.{lookup_cache, or_build}
use users_api.Models.CacheKey.{make_cache_key}
use users_api.Models.Write.{exec_rows, update_whitelist, build_update, store_update, update}
use users_api.Models.Write.Concurrent.{
  Phase, started, prepared, executed, stored, finished, settle, Request, Shared, advance,
  open_to_all, execute,
}
use users_api.Models.Write.Concurrent.Executing.{execute_with}

module _ (E : Env) where
  open E use {sql as S}

  -- As many steps of one call as the number says, or as many as there are.
  unfoldable pub drive : ℕ → Request E → Phase → Shared E → Phase × Shared E
  unfolding advance
  drive zero q p s = (p, s)
  drive (suc k) q p s = elim (advance E q p s) [ none ↦ (p, s) | some (p', t) ↦ drive k q p' t ]

  drive-finished :
      (k : ℕ) (q : Request E) (r : Result ℕ) (s : Shared E)
      → drive k q (finished r) s ≡ (finished r, s)
  unfolding drive
  drive-finished zero q r s = refl
  drive-finished (suc k) q r s = refl

  -- What a call is when it has ended.
  abbrev ended : Result ℕ × World S → Phase × Shared E
  ended (r, w) = (finished r, open_to_all E w)

  -- Behind the statement.
  drive-stored :
      (q : Request E) (n : ℕ) (w : World S) (k : ℕ)
      → drive (suc k) q (stored n) (open_to_all E w)
        ≡ ended ((do_after_update_hooks E.ctx E.hooks q.conn q.object >> pure n) w)
  unfolding drive
  drive-stored q n w k =
      go (do_after_update_hooks E.ctx E.hooks q.conn q.object w).0
        (do_after_update_hooks E.ctx E.hooks q.conn q.object w).1
    where
      go :
          (r : Result (Unit {0})) (v : World S)
          → drive k q (settle (λ _. finished (ok n)) r) (open_to_all E v)
            ≡ ended (continue r (λ _. pure n) v)
      go (ok x) v = drive-finished k q (ok n) (open_to_all E v)
      go (err e) v = drive-finished k q (err e) (open_to_all E v)
      go (panic why) v = drive-finished k q (panic why) (open_to_all E v)

  abbrev store_and_end : Request E → Option UpdateCache → UpdateCache → ℕ → Exec (World S) ℕ
  store_and_end q cached c n = do
    store_update E cached (make_cache_key q.columns []) c
    do_after_update_hooks E.ctx E.hooks q.conn q.object
    pure n

  drive-executed :
      (q : Request E) (cached : Option UpdateCache) (c : UpdateCache) (n : ℕ) (w : World S)
      → drive 4 q (executed cached c n) (open_to_all E w) ≡ ended (store_and_end q cached c n w)
  unfolding drive store_update nat_eq
  drive-executed q none c n w =
      drive-stored q n
        (record w { update_cache = (make_cache_key q.columns [], c) ∷ w.update_cache }) 0
  drive-executed q (some d) c n w = drive-stored q n w 2

  drive_ran :
      (q : Request E) (cached : Option UpdateCache) (r : Result (UpdateCache × ℕ)) (v : World S)
      → drive 4 q (settle (λ x. executed cached x.0 x.1) r) (open_to_all E v)
        ≡ ended (continue r (λ x. store_and_end q cached x.0 x.1) v)
  drive_ran q cached (ok x) v = drive-executed q cached x.0 x.1 v
  drive_ran q cached (err e) v = drive-finished 4 q (err e) (open_to_all E v)
  drive_ran q cached (panic why) v = drive-finished 4 q (panic why) (open_to_all E v)

  module _ (q : Request E) (cached : Option UpdateCache) where
    -- `Update` from the object on, its two halves as one.
    abbrev write_and_end : UpdateCache → Exec (World S) ℕ
    write_and_end c = do
      u ← get_user q.object
      n ←
          exec_rows E "models: unable to update users row"
            "models: failed to get rows affected by update for users" q.conn
            (update_columns c.columns (map (λ x. column_value x u.columns) c.columns) u.id)
      store_and_end q cached c n

    execute_with-end :
        (c : UpdateCache) (w : World S)
        → (execute_with E q c >>= λ x. store_and_end q cached x.0 x.1) w ≡ write_and_end c w
    unfolding get_user
    execute_with-end c w = elim (Option-cases (w.heap.cell q.object)) [
      | inl gone ↦ rw (gone, get_user) refl
      | inr (u, found) ↦
          let x =
            exec_rows E "models: unable to update users row"
              "models: failed to get rows affected by update for users" q.conn
              (update_columns c.columns (map (λ x. column_value x u.columns) c.columns)
                u.columns.id)
              w in
          rw (found, get_user) (go x.0 x.1)
    ]
      where
        go :
            (r : Result ℕ) (v : World S)
            → (let (s, y) = continue {B = UpdateCache × ℕ} r (λ n. pure (c, n)) v in
                continue s (λ x. store_and_end q cached x.0 x.1) y)
              ≡ continue r (λ n. store_and_end q cached c n) v
        go (ok n) v = refl
        go (err e) v = refl
        go (panic why) v = refl

  execute-end :
      (q : Request E) (cached : Option UpdateCache) (w : World S)
      → (execute E q cached >>= λ x. store_and_end q cached x.0 x.1) w
        ≡ (or_build cached (build_update E q.columns) >>= write_and_end q cached) w
  unfolding execute build_update
  execute-end q none w = elim (Bool-cases (length (update_whitelist E q.columns) == 0)) [
    | inl empty ↦ rw empty refl
    | inr full ↦
        rw full (execute_with-end q none (record { columns = update_whitelist E q.columns }) w)
  ]
  execute-end q (some c) w = execute_with-end q (some c) c w

  drive-prepared :
      (q : Request E) (w : World S)
      → let cached = lookup_cache (make_cache_key q.columns []) w.update_cache in
        drive 7 q prepared (open_to_all E w)
        ≡ ended ((or_build cached (build_update E q.columns) >>= write_and_end q cached) w)
  unfolding drive nat_eq
  drive-prepared q w =
      let cached = lookup_cache (make_cache_key q.columns []) w.update_cache in
      drive_ran q cached (execute E q cached w).0 (execute E q cached w).1
      ∙ ap ended (execute-end q cached w)

  -- A call that runs alone does what `Update` does, in eight steps.
  pub drive-update :
      (q : Request E) (w : World S)
      → drive 8 q started (open_to_all E w) ≡ ended (update E q.conn q.object q.columns w)
  unfolding drive update
  drive-update q w =
      go (do_before_update_hooks E.ctx E.hooks q.conn q.object w).0
        (do_before_update_hooks E.ctx E.hooks q.conn q.object w).1
    where
      go :
          (r : Result (Unit {0})) (v : World S)
          → drive 7 q (settle (λ _. prepared) r) (open_to_all E v)
            ≡ ended (
                continue r
                  (λ _ v.
                    let cached = lookup_cache (make_cache_key q.columns []) v.update_cache in
                    (or_build cached (build_update E q.columns) >>= write_and_end q cached) v)
                  v)
      go (ok x) v = drive-prepared q v
      go (err e) v = drive-finished 7 q (err e) (open_to_all E v)
      go (panic why) v = drive-finished 7 q (panic why) (open_to_all E v)
