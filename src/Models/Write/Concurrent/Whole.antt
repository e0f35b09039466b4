-- ===== src/Models/Write/Concurrent/Whole.antt =====
-- models/users.go: calls of `Update` that are each made in one step, without the cache.
use users_api.Base.{ℕ, List, [], ◌∷◌, ◌≡◌, nat_eq, string_eq}
use users_api.Go.Result.{Result}
use users_api.Models.Env.{Env}
use users_api.Models.World.{World}
use users_api.Models.Write.Cached.{update_uncached}
use users_api.Models.Write.Concurrent.{Request, Call}
use users_api.Models.Write.Concurrent.Executing.{Pending, waiting, answered, seen}

module _ (E : Env) where
  open E use {sql as S}

  abbrev pub seen_calls : List (Call E) → List (Request E × Pending)
  seen_calls [] = []
  seen_calls ((q, p) ∷ cs) = (q, seen p) ∷ seen_calls cs

  abbrev pub all_waiting : List (Request E) → List (Request E × Pending)
  all_waiting [] = []
  all_waiting (q ∷ qs) = (q, waiting) ∷ all_waiting qs

  -- One of the calls is made, without a cache and with nothing between.
  pub data AtomicStep (w v : World S)
      : List (Request E × Pending) → List (Request E × Pending) → Type 0 where
    at_once :
        {q : Request E} {r : Result ℕ} {cs : List (Request E × Pending)}
        → update_uncached E q.conn q.object q.columns w ≡ (r, v)
        → AtomicStep w v ((q, waiting) ∷ cs) ((q, answered r) ∷ cs)
    behind :
        {c : Request E × Pending} {cs ds : List (Request E × Pending)}
        → AtomicStep w v cs ds
        → AtomicStep w v (c ∷ cs) (c ∷ ds)

  pub data AtomicRun (w : World S) (cs : List (Request E × Pending))
      : World S → List (Request E × Pending) → Type 0 where
    nothing : AtomicRun w cs w cs
    and_then :
        {u v : World S} {ds es : List (Request E × Pending)}
        → AtomicRun w cs u ds
        → AtomicStep u v ds es
        → AtomicRun w cs v es
