-- ===== src/Models/Write/Concurrent/Finishing.antt =====
-- models/users.go: calls of `Update` that run at once all come to an end.
use mathlib.Core.Option.{some-injective}
use Prim.Native.Nat.{◌*◌}
use users_api.Base.{
  ℕ, none, some, List, [], ◌∷◌, ◌≡◌, ap, ◌+◌, ◌≤◌, ◌<◌, suc, arith, refl, nat_eq, ◌⊎◌, inl, inr,
  All, length,
}
use native.Mathlib.Decide.{dec_lt}
use users_api.Go.Exec.{Exec}
use users_api.Go.Result.{Result, ok, err, panic}
use users_api.Models.Env.{Env}
use users_api.Models.World.{World, UpdateCache}
use users_api.Models.Hooks.{do_before_update_hooks, do_after_update_hooks}
use users_api.Models.Write.Concurrent.{
  r_lock, announce, lock, unlocked, Phase, started, prepared, reading, looked_up, executed, queued,
  storing, stored, finished, settle, Request, Shared, advance, Call, Step, here, there, Run, stop,
  then_step, start, open_to_all, runs_on, execute,
}
use users_api.Models.Write.Concurrent.Exclusive.{
  Counts, readers_among, writers_among, queued_among, start-Counts, Run-Counts,
}

-- The steps that are left of a call, at most.
abbrev steps_left : Phase → ℕ
steps_left started = 8
steps_left prepared = 7
steps_left reading = 6
steps_left (looked_up cached) = 5
steps_left (executed cached cache n) = 4
steps_left (queued cache n) = 3
steps_left (storing cache n) = 2
steps_left (stored n) = 1
steps_left (finished r) = 0

abbrev pub IsFinished : Phase → Type 0
IsFinished (finished r) = Unit {0}
IsFinished _ = ⊥

settle-le :
    {A : Type 0} (f : A → Phase) (r : Result A) (k : ℕ)
    → ((a : A) → steps_left (f a) ≤ k)
    → steps_left (settle f r) ≤ k
settle-le f (ok a) k h = h a
settle-le f (err e) k h = omega arith
settle-le f (panic why) k h = omega arith

module _ (E : Env) where
  abbrev total_left : List (Call E) → ℕ
  total_left [] = 0
  total_left ((q, p) ∷ cs) = steps_left p + total_left cs

  runs_on-le :
      {A : Type 0} (f : A → Phase) (m : Exec (World E.sql) A) (k : ℕ) (p' : Phase) (s t : Shared E)
      → some (runs_on E f m s) ≡ some (p', t)
      → ((a : A) → steps_left (f a) ≤ k)
      → steps_left p' ≤ k
  runs_on-le f m k p' s t e h =
      rw (← (ap (λ (x : Phase × Shared E). x.0) (some-injective (runs_on E f m s) (p', t) e)))
        (settle-le f (m s.world).0 k h)

  advance-lt :
      (q : Request E) (p p' : Phase) (s t : Shared E)
      → advance E q p s ≡ some (p', t)
      → suc (steps_left p') ≤ steps_left p
  unfolding advance
  advance-lt q started p' s t e = omega (
    arith,
    runs_on-le (λ _. prepared) (do_before_update_hooks E.ctx E.hooks q.conn q.object) 7 p' s t e
        (λ _. omega arith),
  )
  advance-lt q prepared p' s t e = ground arith
  advance-lt q reading p' s t e = ground arith
  advance-lt q (looked_up cached) p' s t e = omega (
    arith,
    runs_on-le (λ (r : UpdateCache × ℕ). executed cached r.0 r.1) (execute E q cached) 4 p' s t e
        (λ _. omega arith),
  )
  advance-lt q (executed (some c) cache n) p' s t e = ground arith
  advance-lt q (executed none cache n) p' s t e = ground arith
  advance-lt q (queued cache n) p' s t e = ground arith
  advance-lt q (storing cache n) p' s t e = ground arith
  advance-lt q (stored n) p' s t e = omega (
    arith,
    runs_on-le (λ _. finished (ok n)) (do_after_update_hooks E.ctx E.hooks q.conn q.object) 0 p' s t
        e (λ _. omega arith),
  )
  advance-lt q (finished r) p' s t e = cc

  Step-lt :
      {s t : Shared E} {cs ds : List (Call E)}
      → Step E s t cs ds
      → suc (total_left ds) ≤ total_left cs
  Step-lt {s} {t} (here {q} {p} {p'} {cs} e) = omega (arith, advance-lt q p p' s t e)
  Step-lt (there step) = omega (arith, Step-lt step)

  Run-le :
      {s : Shared E} {cs : List (Call E)} {n : ℕ} {t : Shared E} {ds : List (Call E)}
      → Run E s cs n t ds
      → n + total_left ds ≤ total_left cs
  Run-le stop = omega arith
  Run-le (then_step run step) = omega (arith, Run-le run, Step-lt step)

  total_left-start : (qs : List (Request E)) → total_left (start E qs) ≡ 8 * length qs
  total_left-start [] = omega arith
  total_left-start (q ∷ qs) = omega (arith, total_left-start qs)

  -- A step that is possible.
  abbrev pub Next : Shared E → List (Call E) → Type 0
  Next s cs = (t : Shared E) × (ds : List (Call E)) × Step E s t cs ds

  later : (s : Shared E) (c : Call E) (cs : List (Call E)) → Next s cs → Next s (c ∷ cs)
  later s c cs (t, ds, step) = (t, c ∷ ds, there step)

  moves :
      (s : Shared E) (q : Request E) (p : Phase) (cs : List (Call E)) (x : Phase × Shared E)
      → advance E q p s ≡ some x
      → Next s ((q, p) ∷ cs)
  moves s q p cs (p', t) e = (t, (q, p') ∷ cs, here e)

  -- A call that reads can go on.
  reader_moves : (s : Shared E) (cs : List (Call E)) → 0 < readers_among E cs → Next s cs
  unfolding advance
  reader_moves s [] h = elim h [ ]
  reader_moves s ((q, reading) ∷ cs) h = moves s q reading cs _ refl
  reader_moves s ((q, p) ∷ cs) h = later s (q, p) cs (reader_moves s cs (ground arith))

  writer_moves : (s : Shared E) (cs : List (Call E)) → 0 < writers_among E cs → Next s cs
  unfolding advance
  writer_moves s [] h = elim h [ ]
  writer_moves s ((q, storing cache n) ∷ cs) h = moves s q (storing cache n) cs _ refl
  writer_moves s ((q, p) ∷ cs) h = later s (q, p) cs (writer_moves s cs (ground arith))

  -- A call inside `Lock` can go on once the readers have left.
  queued_moves :
      (s : Shared E) (cs : List (Call E)) → s.mutex.readers ≡ 0 → 0 < queued_among E cs → Next s cs
  unfolding advance
  queued_moves s [] left h = elim h [ ]
  queued_moves s ((q, queued cache n) ∷ cs) left h =
      moves s q (queued cache n) cs (storing cache n, record s { mutex = lock s.mutex })
        (ground arith)
  queued_moves s ((q, p) ∷ cs) left h = later s (q, p) cs (queued_moves s cs left (ground arith))

  free_moves :
      (s : Shared E) (cs : List (Call E))
      → s.mutex ≡ unlocked
      → All (λ c. IsFinished c.1) cs ⊎ Next s cs
  unfolding advance
  free_moves s [] free = inl tt
  free_moves s ((q, finished r) ∷ cs) free = elim (free_moves s cs free) [
    | inl ended ↦ inl (tt, ended)
    | inr next ↦ inr (later s (q, finished r) cs next)
  ]
  free_moves s ((q, started) ∷ cs) free = inr (moves s q started cs _ refl)
  free_moves s ((q, prepared) ∷ cs) free =
      inr (moves s q prepared cs (reading, record s { mutex = r_lock s.mutex }) (ground arith))
  free_moves s ((q, reading) ∷ cs) free = inr (moves s q reading cs _ refl)
  free_moves s ((q, looked_up cached) ∷ cs) free = inr (moves s q (looked_up cached) cs _ refl)
  free_moves s ((q, executed (some c) cache n) ∷ cs) free =
      inr (moves s q (executed (some c) cache n) cs _ refl)
  free_moves s ((q, executed none cache n) ∷ cs) free = inr (
      moves s q (executed none cache n) cs (queued cache n, record s { mutex = announce s.mutex })
        (ground arith))
  free_moves s ((q, queued cache n) ∷ cs) free = inr (
      moves s q (queued cache n) cs (storing cache n, record s { mutex = lock s.mutex })
        (ground arith))
  free_moves s ((q, storing cache n) ∷ cs) free = inr (moves s q (storing cache n) cs _ refl)
  free_moves s ((q, stored n) ∷ cs) free = inr (moves s q (stored n) cs _ refl)

  -- No call waits for ever: the calls that hold the mutex can leave it.
  some_moves :
      (s : Shared E) (cs : List (Call E))
      → Counts E s cs
      → (All (λ c. IsFinished c.1) cs × (s.mutex ≡ unlocked)) ⊎ Next s cs
  some_moves s cs c = elim (dec_lt 0 (readers_among E cs)) [
    | yes r ↦ inr (reader_moves s cs r)
    | no nr ↦ elim (dec_lt 0 (writers_among E cs)) [
      | yes w ↦ inr (writer_moves s cs w)
      | no nw ↦ elim (dec_lt 0 (queued_among E cs)) [
        | yes x ↦ inr (queued_moves s cs (ground arith) x)
        | no nx ↦
            let free : s.mutex ≡ unlocked = ground arith in
            elim (free_moves s cs free) [ inl ended ↦ inl (ended, free) | inr next ↦ inr next ]
      ]
    ]
  ]

  -- However the steps of any number of calls of `Update` interleave, there are at most eight for each
  -- call; and as long as a call has not ended, a call can make its next step: none waits for a mutex
  -- that no other will release. When all have ended, the mutex is free.
  pub update-finishes :
      (w : World E.sql) (qs : List (Request E)) (n : ℕ) (t : Shared E) (ds : List (Call E))
      → Run E (open_to_all E w) (start E qs) n t ds
      → (n ≤ 8 * length qs) × ((All (λ c. IsFinished c.1) ds × (t.mutex ≡ unlocked)) ⊎ Next t ds)
  update-finishes w qs n t ds run = (
    omega (arith, Run-le run, total_left-start qs),
    some_moves t ds (Run-Counts E run (start-Counts E w qs)),
  )
