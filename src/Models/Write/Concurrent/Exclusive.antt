-- ===== src/Models/Write/Concurrent/Exclusive.antt =====
-- models/users.go: `userUpdateCacheMut` keeps the accesses to `userUpdateCache` apart.
use users_api.Base.{
  ℕ, Bool, true, false, none, some, List, [], ◌∷◌, ◌≡◌, ap, ◌+◌, ◌≤◌, ◌<◌, arith, refl, nat_eq,
}
use mathlib.Core.Option.{some-injective}
use users_api.Go.Exec.{Exec}
use users_api.Go.Result.{Result, ok, err, panic}
use users_api.Models.Env.{Env}
use users_api.Models.World.{World, UpdateCache}
use users_api.Models.Hooks.{do_before_update_hooks, do_after_update_hooks}
use users_api.Models.Write.Concurrent.{
  RwMutex, Phase, started, prepared, reading, looked_up, executed, queued, storing, stored,
  finished, settle, Request, Shared, advance, Call, Step, here, there, Run, stop, then_step, start,
  open_to_all, runs_on, execute,
}

abbrev reads : Phase → ℕ
reads reading = 1
reads _ = 0

abbrev stores : Phase → ℕ
stores (storing _ _) = 1
stores _ = 0

-- Whether the call is inside `Lock`.
abbrev queues : Phase → ℕ
queues (queued _ _) = 1
queues _ = 0

abbrev bit : Bool → ℕ
bit true = 1
bit false = 0

settle_idle :
    {A : Type 0} (f : A → Phase) (r : Result A)
    → ((a : A) → (reads (f a) ≡ 0) × (stores (f a) ≡ 0) × (queues (f a) ≡ 0))
    → (reads (settle f r) ≡ 0) × (stores (settle f r) ≡ 0) × (queues (settle f r) ≡ 0)
settle_idle f (ok a) h = h a
settle_idle f (err e) h = (refl, refl, refl)
settle_idle f (panic why) h = (refl, refl, refl)

module _ (E : Env) where
  -- How many of the calls are between `RLock` and `RUnlock`, and between `Lock` and `Unlock`.
  abbrev pub readers_among : List (Call E) → ℕ
  readers_among [] = 0
  readers_among ((q, p) ∷ cs) = reads p + readers_among cs

  abbrev pub writers_among : List (Call E) → ℕ
  writers_among [] = 0
  writers_among ((q, p) ∷ cs) = stores p + writers_among cs

  abbrev pub queued_among : List (Call E) → ℕ
  queued_among [] = 0
  queued_among ((q, p) ∷ cs) = queues p + queued_among cs

  -- The mutex counts the calls that hold it.
  pub record Counts (s : Shared E) (cs : List (Call E)) : Type 0 where
    pub readers_counted : s.mutex.readers ≡ readers_among cs
    pub writers_counted : bit s.mutex.locked ≡ writers_among cs
    pub queued_counted : bit s.mutex.pending ≡ queued_among cs
    pub one : s.mutex.pending ≡ true → s.mutex.locked ≡ false
    pub apart : s.mutex.locked ≡ true → s.mutex.readers ≡ 0

  -- What a step of one of the calls changes in the numbers.
  record Balanced (m m' : RwMutex) (r r' w w' x x' : ℕ) : Type 0 where
    readers_balance : m'.readers + r ≡ m.readers + r'
    writers_balance : bit m'.locked + w ≡ bit m.locked + w'
    queued_balance : bit m'.pending + x ≡ bit m.pending + x'
    still_one : m'.pending ≡ true → m'.locked ≡ false
    still_apart : m'.locked ≡ true → m'.readers ≡ 0

  -- A step outside the mutex.
  runs_on-Balanced :
      {A : Type 0} (f : A → Phase) (m : Exec (World E.sql) A) (p p' : Phase) (s t : Shared E)
      → some (runs_on E f m s) ≡ some (p', t)
      → ((a : A) → (reads (f a) ≡ 0) × (stores (f a) ≡ 0) × (queues (f a) ≡ 0))
      → reads p ≡ 0
      → stores p ≡ 0
      → queues p ≡ 0
      → (s.mutex.locked ≡ true → s.mutex.readers ≡ 0)
      → (s.mutex.pending ≡ true → s.mutex.locked ≡ false)
      → Balanced s.mutex t.mutex (reads p) (reads p') (stores p) (stores p') (queues p) (queues p')
  runs_on-Balanced f m p p' s t e h er ew ex a b =
      let (hr, hw, hx) = settle_idle f (m s.world).0 h in
      let e' = some-injective (runs_on E f m s) (p', t) e in
      rw
        (
          ← (ap (λ (x : Phase × Shared E). x.0) e'),
          ← (ap (λ (x : Phase × Shared E). x.1.mutex) e'),
          er,
          ew,
          ex,
          hr,
          hw,
          hx,
        )
        (ground arith)

  advance-Balanced :
      (q : Request E) (p p' : Phase) (s t : Shared E)
      → advance E q p s ≡ some (p', t)
      → reads p ≤ s.mutex.readers
      → stores p ≤ bit s.mutex.locked
      → queues p ≤ bit s.mutex.pending
      → (s.mutex.locked ≡ true → s.mutex.readers ≡ 0)
      → (s.mutex.pending ≡ true → s.mutex.locked ≡ false)
      → Balanced s.mutex t.mutex (reads p) (reads p') (stores p) (stores p') (queues p) (queues p')
  unfolding advance
  advance-Balanced q started p' s t e hr hw hx a b =
      runs_on-Balanced (λ _. prepared) (do_before_update_hooks E.ctx E.hooks q.conn q.object)
        started p' s t e (λ _. (refl, refl, refl)) refl refl refl a b
  advance-Balanced q prepared p' s t e hr hw hx a b = ground arith
  advance-Balanced q reading p' s t e hr hw hx a b = ground arith
  advance-Balanced q (looked_up cached) p' s t e hr hw hx a b =
      runs_on-Balanced (λ (r : UpdateCache × ℕ). executed cached r.0 r.1) (execute E q cached)
        (looked_up cached) p' s t e (λ _. (refl, refl, refl)) refl refl refl a b
  advance-Balanced q (executed (some c) cache n) p' s t e hr hw hx a b = ground arith
  advance-Balanced q (executed none cache n) p' s t e hr hw hx a b = ground arith
  advance-Balanced q (queued cache n) p' s t e hr hw hx a b = ground arith
  advance-Balanced q (storing cache n) p' s t e hr hw hx a b = ground arith
  advance-Balanced q (stored n) p' s t e hr hw hx a b =
      runs_on-Balanced (λ _. finished (ok n)) (do_after_update_hooks E.ctx E.hooks q.conn q.object)
        (stored n) p' s t e (λ _. (refl, refl, refl)) refl refl refl a b
  advance-Balanced q (finished r) p' s t e hr hw hx a b = cc

  -- The numbers of a part of the calls, within those of the mutex.
  Step-Balanced :
      {s t : Shared E} {cs ds : List (Call E)}
      → Step E s t cs ds
      → readers_among cs ≤ s.mutex.readers
      → writers_among cs ≤ bit s.mutex.locked
      → queued_among cs ≤ bit s.mutex.pending
      → (s.mutex.locked ≡ true → s.mutex.readers ≡ 0)
      → (s.mutex.pending ≡ true → s.mutex.locked ≡ false)
      → Balanced s.mutex t.mutex
          (readers_among cs)
          (readers_among ds)
          (writers_among cs)
          (writers_among ds)
          (queued_among cs)
          (queued_among ds)
  Step-Balanced {s} {t} (here {q} {p} {p'} {cs} e) hr hw hx a one =
      let b = advance-Balanced q p p' s t e (omega arith) (omega arith) (omega arith) a one in
      ground arith
  Step-Balanced (there step) hr hw hx a one =
      let b = Step-Balanced step (omega arith) (omega arith) (omega arith) a one in ground arith

  pub Step-Counts :
      {s t : Shared E} {cs ds : List (Call E)} → Step E s t cs ds → Counts s cs → Counts t ds
  Step-Counts step c =
      let b = Step-Balanced step (omega arith) (omega arith) (omega arith) c.apart c.one in
      ground arith

  pub start-Counts :
      (w : World E.sql) (qs : List (Request E)) → Counts (open_to_all E w) (start E qs)
  start-Counts w [] = record {
    readers_counted = refl;
    writers_counted = refl;
    queued_counted = refl;
    one = λ e. refl;
    apart = λ e. refl;
  }
  start-Counts w (q ∷ qs) = let c = start-Counts w qs in ground arith

  pub Run-Counts :
      {s : Shared E} {cs : List (Call E)} {n : ℕ} {t : Shared E} {ds : List (Call E)}
      → Run E s cs n t ds
      → Counts s cs
      → Counts t ds
  Run-Counts stop c = c
  Run-Counts (then_step run step) c = Step-Counts step (Run-Counts run c)

  -- However the steps of any number of calls of `Update` interleave, and whatever their hooks do with
  -- the rest of the state, at most one call at a time is where it writes the map of cached statements,
  -- and then no call is where it reads it.
  pub update-exclusive :
      (w : World E.sql) (qs : List (Request E)) (n : ℕ) (t : Shared E) (ds : List (Call E))
      → Run E (open_to_all E w) (start E qs) n t ds
      → (writers_among ds ≤ 1) × (0 < writers_among ds → readers_among ds ≡ 0)
  update-exclusive w qs n t ds run = let c = Run-Counts run (start-Counts w qs) in ground arith
