-- ===== src/Models/Cache.antt =====
-- models/users.go: a map from keys to the statements that `Insert`, `Update` and `Upsert` have built,
-- and their three steps with it. A read or a write under the mutex is one step here; Write/Concurrent
-- takes `Update` apart into those between which another call may run.
use users_api.Base.{String, Option, none, some, List, [], ◌∷◌, ◌==◌, string_eq, if◌then◌else◌}
use users_api.Go.Exec.{Exec, pure}

module _ {C : Type 0} where
  -- `cache, cached := userUpdateCache[key]`
  abbrev pub lookup_cache : String → List (String × C) → Option C
  lookup_cache key [] = none
  lookup_cache key ((k, c) ∷ rest) = if key == k then some c else lookup_cache key rest

  -- `if !cached { ... }`
  abbrev pub or_build : {S : Type 0} → Option C → Exec S C → Exec S C
  or_build none build = build
  or_build (some c) build = pure c

  -- `if !cached { userUpdateCache[key] = cache }`
  abbrev pub remember : Option C → String → C → List (String × C) → List (String × C)
  remember (some _) key c cache = cache
  remember none key c cache = (key, c) ∷ cache
