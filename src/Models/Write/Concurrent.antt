-- ===== src/Models/Write/Concurrent.antt =====
-- models/users.go: calls of `Update` that run at once, with `userUpdateCacheMut`. A step is what one
-- call does between two points at which another may run: a section under the mutex is entered by a
-- step and left by another, and the access to the cache is made inside it.
pub mod Exclusive
pub mod Executing
pub mod Whole
pub mod Atomic
pub mod Schedules
pub mod Alone
pub mod Finishing
use Prim.Native.Nat.{◌-◌}
use users_api.Base.{
  ℕ, Bool, true, false, Option, none, some, List, [], ◌∷◌, ◌≡◌, ◌+◌, ◌==◌, nat_eq, suc, zero, map,
  if◌then◌else◌,
}
use users_api.Go.Result.{Result, ok, err, panic}
use users_api.Go.Exec.{Exec, pure, ◌>>=◌}
use users_api.Models.User.{UserPtr, column_value}
use users_api.Models.Sql.{Conn, update_columns}
use users_api.Models.World.{World, UpdateCache, get_user}
use users_api.Models.Hooks.{do_before_update_hooks, do_after_update_hooks}
use users_api.Models.Env.{Env, Columns}
use users_api.Models.Cache.{lookup_cache, or_build}
use users_api.Models.CacheKey.{make_cache_key}
use users_api.Models.Write.{exec_rows, store_update, build_update}

-- sync.RWMutex: how many hold it for reading, whether a `Lock` has been called that waits for these,
-- and whether one holds it for writing. From the call of `Lock` to the `Unlock`, neither `RLock` nor
-- another `Lock` goes on.
pub record RwMutex : Type 0 where
  pub readers : ℕ
  pub pending : Bool
  pub locked : Bool

abbrev pub unlocked : RwMutex
unlocked = record { readers = 0; pending = false; locked = false }

-- `RLock`, `RUnlock`, the two halves of `Lock`, and `Unlock`, where they do not wait.
abbrev pub r_lock : RwMutex → RwMutex
r_lock m = record m { readers = suc m.readers }

abbrev pub r_unlock : RwMutex → RwMutex
r_unlock m = record m { readers = m.readers - 1 }

abbrev pub announce : RwMutex → RwMutex
announce m = record m { pending = true }

abbrev pub lock : RwMutex → RwMutex
lock m = record m { pending = false; locked = true }

abbrev pub unlock : RwMutex → RwMutex
unlock m = record m { locked = false }

-- Where a call of `Update` stands.
pub data Phase : Type 0 where
  -- before the first hooks, and behind them
  started prepared : Phase
  -- between `RLock` and `RUnlock`
  reading : Phase
  -- with what it found
  looked_up : Option UpdateCache → Phase
  -- behind its statement, with the number of rows
  executed : Option UpdateCache → UpdateCache → ℕ → Phase
  -- inside `Lock`, while the last readers leave
  queued : UpdateCache → ℕ → Phase
  -- between `Lock` and `Unlock`
  storing : UpdateCache → ℕ → Phase
  -- before the last hooks
  stored : ℕ → Phase
  finished : Result ℕ → Phase

-- The call goes on with a value, or ends by an error or a panic.
abbrev pub settle : {A : Type 0} → (A → Phase) → Result A → Phase
settle next (ok a) = next a
settle next (err e) = finished (err e)
settle next (panic why) = finished (panic why)

module _ (E : Env) where
  open E use {sql as S}

  -- The receiver and the arguments of a call.
  pub record Request : Type 0 where
    pub conn : Conn S.Tx
    pub object : UserPtr
    pub columns : Columns

  pub record Shared : Type 0 where
    pub mutex : RwMutex
    pub world : World S

  -- From `if !cached` to the number of rows, outside the mutex.
  unfoldable pub execute : Request → Option UpdateCache → Exec (World S) (UpdateCache × ℕ)
  unfolding build_update get_user exec_rows
  execute q cached = do
    cache ← or_build cached (build_update E q.columns)
    u ← get_user q.object
    n ←
        exec_rows E "models: unable to update users row"
          "models: failed to get rows affected by update for users" q.conn
          (update_columns cache.columns (map (λ c. column_value c u.columns) cache.columns) u.id)
    pure (cache, n)

  -- A call of the world, with what the call does next.
  abbrev pub runs_on : {A : Type 0} → (A → Phase) → Exec (World S) A → Shared → Phase × Shared
  runs_on next m s = let (r, w) = m s.world in (settle next r, record s { world = w })

  -- The next step of a call: none if the mutex holds it up, or if it has ended.
  unfoldable pub advance : Request → Phase → Shared → Option (Phase × Shared)
  unfolding do_before_update_hooks do_after_update_hooks make_cache_key execute store_update
  advance q started s =
      some (runs_on (λ _. prepared) (do_before_update_hooks E.ctx E.hooks q.conn q.object) s)
  advance q prepared s =
      if s.mutex.locked
      then none
      else if s.mutex.pending
      then none
      else some (reading, record s { mutex = r_lock s.mutex })
  advance q reading s = some (
    looked_up (lookup_cache (make_cache_key q.columns []) s.world.update_cache),
    record s { mutex = r_unlock s.mutex },
  )
  advance q (looked_up cached) s =
      some (runs_on (λ r. executed cached r.0 r.1) (execute q cached) s)
  advance q (executed (some c) cache n) s = some (stored n, s)
  advance q (executed none cache n) s =
      if s.mutex.locked
      then none
      else if s.mutex.pending
      then none
      else some (queued cache n, record s { mutex = announce s.mutex })
  advance q (queued cache n) s =
      if s.mutex.readers == 0
      then some (storing cache n, record s { mutex = lock s.mutex })
      else none
  advance q (storing cache n) s = some (
      runs_on (λ _. stored n) (store_update E none (make_cache_key q.columns []) cache)
        (record s { mutex = unlock s.mutex }))
  advance q (stored n) s =
      some (runs_on (λ _. finished (ok n)) (do_after_update_hooks E.ctx E.hooks q.conn q.object) s)
  advance q (finished r) s = none

  abbrev pub Call : Type 0
  Call = Request × Phase

  -- One of the calls makes its next step.
  pub data Step (s t : Shared) : List Call → List Call → Type 0 where
    here :
        {q : Request} {p p' : Phase} {cs : List Call}
        → advance q p s ≡ some (p', t)
        → Step s t ((q, p) ∷ cs) ((q, p') ∷ cs)
    there : {c : Call} {cs ds : List Call} → Step s t cs ds → Step s t (c ∷ cs) (c ∷ ds)

  -- As many steps as the number says, each of any of the calls.
  pub data Run (s : Shared) (cs : List Call) : ℕ → Shared → List Call → Type 0 where
    stop : Run s cs zero s cs
    then_step :
        {n : ℕ} {t u : Shared} {ds es : List Call}
        → Run s cs n t ds
        → Step t u ds es
        → Run s cs (suc n) u es

  -- The calls before their first step.
  abbrev pub start : List Request → List Call
  start [] = []
  start (q ∷ qs) = (q, started) ∷ start qs

  -- No call holds the mutex, in a world that the calls share.
  abbrev pub open_to_all : World S → Shared
  open_to_all w = record { mutex = unlocked; world = w }
