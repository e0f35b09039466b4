-- ===== src/Tests/Concurrent.antt =====
-- The theorems on calls of `Update` that run at once, on two calls that both miss the cache.
use Prim.Native.Nat.{◌*◌}
use users_api.Base.{
  ℕ, String, true, false, none, List, [], ◌∷◌, ◌≡◌, ◌≤◌, ◌<◌, ◌⊎◌, refl, All, length, nat_eq,
  string_eq,
}
use users_api.Models.User.{Column, column_value}
use users_api.Models.Sql.{writer}
use users_api.Models.World.{UpdateCache}
use users_api.Models.Write.Cached.{IsBuilt}
use users_api.Models.Write.Concurrent.{
  unlocked, storing, executed, finished, Request, Shared, Call, Run, stop, start, open_to_all,
}
use users_api.Models.Write.Concurrent.Schedules.{follow, follow-Run}
use users_api.Models.Write.Concurrent.Exclusive.{readers_among, writers_among, update-exclusive}
use users_api.Go.Result.{ok}
use users_api.Models.CacheKey.{make_cache_key}
use users_api.Models.Write.Concurrent.Executing.{answered}
use users_api.Models.Write.Concurrent.Whole.{AtomicRun, all_waiting}
use users_api.Models.Write.Concurrent.Atomic.{update-atomic}
use users_api.Models.Write.Concurrent.Finishing.{IsFinished, Next, update-finishes}
use users_api.Tests.Fixture.{env, held_world}

abbrev request : Request env
request = record {
  conn = writer;
  object = 0;
  columns = record { kind = 2; cols = Column.migrated_at ∷ [] };
}

abbrev two : List (Request env)
two = request ∷ request ∷ []

-- Both look up before either has stored; then the first holds the mutex.
abbrev race : List ℕ
race = 0 ∷ 1 ∷ 0 ∷ 1 ∷ 0 ∷ 1 ∷ 0 ∷ 1 ∷ 0 ∷ 0 ∷ []

-- The statement that both have built.
abbrev built : UpdateCache
built = record { columns = Column.migrated_at ∷ [] }

abbrev during : Shared env
during = record {
  mutex = record { readers = 0; pending = false; locked = true };
  world = held_world;
}

abbrev calls_during : List (Call env)
calls_during = (request, storing built 1) ∷ (request, executed none built 1) ∷ []

during-Run : Run env (open_to_all env held_world) (start env two) 10 during calls_during
unfolding follow nat_eq string_eq column_value
during-Run =
    follow-Run env race (open_to_all env held_world) (start env two) 0 (open_to_all env held_world)
      during (start env two) calls_during stop refl

update-exclusive_example :
    (writers_among env calls_during ≤ 1)
    × (0 < writers_among env calls_during → readers_among env calls_during ≡ 0)
update-exclusive_example = update-exclusive env held_world two 10 during calls_during during-Run

-- Then both store it, the second after the first.
abbrev key : String
key = make_cache_key request.columns []

abbrev after : Shared env
after = open_to_all env (record held_world { update_cache = (key, built) ∷ (key, built) ∷ [] })

abbrev calls_after : List (Call env)
calls_after = (request, finished (ok 1)) ∷ (request, finished (ok 1)) ∷ []

after-Run : Run env (open_to_all env held_world) (start env two) 16 after calls_after
unfolding follow nat_eq
after-Run =
    follow-Run env (0 ∷ 1 ∷ 1 ∷ 1 ∷ 0 ∷ 1 ∷ []) (open_to_all env held_world) (start env two) 10
      during after calls_during calls_after during-Run refl

update-atomic_example :
    AtomicRun env held_world
      (all_waiting env two)
      held_world
      ((request, answered (ok 1)) ∷ (request, answered (ok 1)) ∷ [])
    × All (IsBuilt env) after.world.update_cache
update-atomic_example = update-atomic env held_world two 16 after calls_after refl tt after-Run

update-finishes_example :
    (10 ≤ 8 * length two)
    × ((All (λ c. IsFinished c.1) calls_during × (during.mutex ≡ unlocked))
        ⊎ Next env during calls_during)
update-finishes_example = update-finishes env held_world two 10 during calls_during during-Run
