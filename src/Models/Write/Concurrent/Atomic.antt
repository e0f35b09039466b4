-- ===== src/Models/Write/Concurrent/Atomic.antt =====
-- models/users.go: calls of `Update` that run at once do what they would do one after the other,
-- without the cache.
use mathlib.Core.Option.{some-injective, none-ne-some}
use mathlib.Core.Path.{subst}
use users_api.Base.{
  ℕ, Bool, true, false, Option, none, some, List, [], ◌∷◌, ◌≡◌, ap, refl, ◌==◌, nat_eq, string_eq,
  if◌then◌else◌, ◌⊎◌, inl, inr, All,
}
use users_api.Go.Result.{Result, ok}
use users_api.Models.Env.{Env}
use users_api.Models.World.{World, UpdateCache}
use users_api.Models.Hooks.{no_hooks}
use users_api.Models.Hooks.None.{before_update-pure, after_update-pure}
use users_api.Models.Cache.{lookup_cache}
use users_api.Models.Write.{store_update}
use users_api.Models.Write.Cached.{IsBuilt, lookup_cache-All, update_uncached}
use users_api.Models.Write.Concurrent.{
  r_lock, announce, lock, Phase, started, prepared, reading, looked_up, executed, queued, storing,
  stored, finished, Request, Shared, advance, Call, Step, here, there, Run, stop, then_step, start,
  open_to_all, runs_on, execute,
}
use users_api.Models.Write.Concurrent.Executing.{
  waiting, answered, seen, without_cache, uncached-forget, uncached-cache, key_of, Holds,
  execute-Unchanged,
}
use users_api.Models.Write.Concurrent.Whole.{
  seen_calls, all_waiting, AtomicStep, at_once, behind, AtomicRun, nothing, and_then,
}

module _ {A : Type 0} where
  not_held : (b : Bool) (o : Option A) (a : A) → (if b then none else o) ≡ some a → o ≡ some a
  not_held true o a e = absurd (none-ne-some a e)
  not_held false o a e = e

  unannounced :
      (b c : Bool) (o : Option A) (a : A)
      → (if b then none else if c then none else o) ≡ some a
      → o ≡ some a
  unannounced b c o a e = not_held c o a (not_held b (if c then none else o) a e)

  granted : (b : Bool) (o : Option A) (a : A) → (if b then o else none) ≡ some a → o ≡ some a
  granted true o a e = e
  granted false o a e = absurd (none-ne-some a e)

module _ (E : Env) where
  open E use {sql as S}

  -- A step is one of the whole call, or none that can be seen.
  abbrev Simulates : Request E → Phase → Phase → World S → World S → Type 0
  Simulates q p p' w v =
      ((seen p' ≡ seen p) × (without_cache E v ≡ without_cache E w))
      ⊎ ((r : Result ℕ) × (seen p ≡ waiting)
          × (seen p' ≡ answered r)
          × (update_uncached E q.conn q.object q.columns (without_cache E w)
              ≡ (r, without_cache E v)))

  abbrev Good : Request E → Phase → Shared E → Phase × Shared E → Type 0
  Good q p s (p', t) =
      Holds E q p' × All (IsBuilt E) t.world.update_cache × Simulates q p p' s.world t.world

  reached :
      (q : Request E) (p : Phase) (s : Shared E) (x y : Phase × Shared E)
      → some x ≡ some y
      → Good q p s x
      → Good q p s y
  reached q p s x y e g = subst (Good q p s) (some-injective x y e) g

  silent :
      (q : Request E) (p p' : Phase) (s t : Shared E)
      → Holds E q p'
      → All (IsBuilt E) t.world.update_cache
      → seen p' ≡ seen p
      → without_cache E t.world ≡ without_cache E s.world
      → Good q p s (p', t)
  silent q p p' s t h b e f = (h, b, inl (e, f))

  found-Holds :
      (q : Request E) (w : World S) (o : Option UpdateCache)
      → All (IsBuilt E) w.update_cache
      → lookup_cache (key_of E q) w.update_cache ≡ o
      → Holds E q (looked_up o)
  found-Holds q w none b e = tt
  found-Holds q w (some c) b e = lookup_cache-All (IsBuilt E) (key_of E q) c w.update_cache b e

  execute-Good :
      (q : Request E) (cached : Option UpdateCache) (s : Shared E)
      → Holds E q (looked_up cached)
      → All (IsBuilt E) s.world.update_cache
      → Good q
          (looked_up cached)
          s
          (runs_on E (λ r. executed cached r.0 r.1) (execute E q cached) s)
  execute-Good q cached s h b =
      let (same, world, holds) = execute-Unchanged E q cached s.world h in
      (
        holds,
        rw (world, uncached-cache E q s.world) b,
        inr (
          (update_uncached E q.conn q.object q.columns s.world).0,
          refl,
          same,
          rw (world) (uncached-forget E q.conn q.object q.columns s.world),
        ),
      )

  module _ (quiet : E.hooks ≡ no_hooks) where
    advance-Good :
        (q : Request E) (p p' : Phase) (s t : Shared E)
        → advance E q p s ≡ some (p', t)
        → Holds E q p
        → All (IsBuilt E) s.world.update_cache
        → Good q p s (p', t)
    unfolding advance store_update
    advance-Good q started p' s t e h b =
        reached q started s (prepared, s) (p', t)
          (rw (before_update-pure E.hooks quiet E.ctx q.conn q.object) at e)
          (silent q started prepared s s tt b refl refl)
    advance-Good q prepared p' s t e h b =
        let next : Phase × Shared E = (reading, record s { mutex = r_lock s.mutex }) in
        reached q prepared s next (p', t)
          (unannounced s.mutex.locked s.mutex.pending (some next) (p', t) e)
          (silent q prepared reading s next.1 tt b refl refl)
    advance-Good q reading p' s t e h b =
        reached q reading s _ (p', t) e (found-Holds q s.world _ b refl, b, inl (refl, refl))
    advance-Good q (looked_up cached) p' s t e h b =
        reached q (looked_up cached) s
          (runs_on E (λ r. executed cached r.0 r.1) (execute E q cached) s) (p', t) e
          (execute-Good q cached s h b)
    advance-Good q (executed (some c) cache n) p' s t e h b =
        reached q (executed (some c) cache n) s (stored n, s) (p', t) e
          (silent q (executed (some c) cache n) (stored n) s s tt b refl refl)
    advance-Good q (executed none cache n) p' s t e h b =
        let next : Phase × Shared E = (queued cache n, record s { mutex = announce s.mutex }) in
        reached q (executed none cache n) s next (p', t)
          (unannounced s.mutex.locked s.mutex.pending (some next) (p', t) e)
          (silent q (executed none cache n) (queued cache n) s next.1 h b refl refl)
    advance-Good q (queued cache n) p' s t e h b =
        let next : Phase × Shared E = (storing cache n, record s { mutex = lock s.mutex }) in
        reached q (queued cache n) s next (p', t)
          (granted (s.mutex.readers == 0) (some next) (p', t) e)
          (silent q (queued cache n) (storing cache n) s next.1 h b refl refl)
    advance-Good q (storing cache n) p' s t e h b =
        reached q (storing cache n) s _ (p', t) e (tt, (h, b), inl (refl, refl))
    advance-Good q (stored n) p' s t e h b =
        reached q (stored n) s (finished (ok n), s) (p', t)
          (rw (after_update-pure E.hooks quiet E.ctx q.conn q.object) at e)
          (silent q (stored n) (finished (ok n)) s s tt b refl refl)
    advance-Good q (finished r) p' s t e h b = cc

    -- Each call holds the statement of its columns.
    abbrev AllHold : List (Call E) → Type 0
    AllHold cs = All (λ c. Holds E c.0 c.1) cs

    StepSeen : World S → World S → List (Call E) → List (Call E) → Type 0
    StepSeen w v cs ds =
        ((seen_calls E ds ≡ seen_calls E cs) × (without_cache E v ≡ without_cache E w))
        ⊎ AtomicStep E (without_cache E w) (without_cache E v) (seen_calls E cs) (seen_calls E ds)

    first_seen :
        (q : Request E) (p p' : Phase) (cs : List (Call E)) (w v : World S)
        → Simulates q p p' w v
        → StepSeen w v ((q, p) ∷ cs) ((q, p') ∷ cs)
    unfolding StepSeen
    first_seen q p p' cs w v (inl (e, f)) = inl (ap (λ x. (q, x) ∷ seen_calls E cs) e, f)
    first_seen q p p' cs w v (inr (r, e, f, h)) = inr (rw (e, f) (at_once h))

    Step-Seen :
        {s t : Shared E} {cs ds : List (Call E)}
        → Step E s t cs ds
        → All (IsBuilt E) s.world.update_cache
        → AllHold cs
        → AllHold ds × All (IsBuilt E) t.world.update_cache × StepSeen s.world t.world cs ds
    unfolding StepSeen
    Step-Seen {s} {t} (here {q} {p} {p'} {cs} e) b h =
        let (holds, built, sim) = advance-Good q p p' s t e h.0 b in
        ((holds, h.1), built, first_seen q p p' cs s.world t.world sim)
    Step-Seen {s} {t} (there {c} {cs} {ds} step) b h =
        let (holds, built, sim) = Step-Seen step b h.1 in
        (
          (h.0, holds),
          built,
          elim sim [
            | inl (e, f) ↦ inl (ap (λ x. (c.0, seen c.1) ∷ x) e, f)
            | inr a ↦ inr (behind a)
          ],
        )

    Run-Atomic :
        {s : Shared E} {cs : List (Call E)} {n : ℕ} {t : Shared E} {ds : List (Call E)}
        → Run E s cs n t ds
        → All (IsBuilt E) s.world.update_cache
        → AllHold cs
        → AllHold ds
          × All (IsBuilt E) t.world.update_cache
          × AtomicRun E
              (without_cache E s.world)
              (seen_calls E cs)
              (without_cache E t.world)
              (seen_calls E ds)
    unfolding StepSeen
    Run-Atomic stop b h = (h, b, nothing)
    Run-Atomic (then_step {n} {t} {u} {ds} {es} run step) b h =
        let (holds, built, atomic) = Run-Atomic run b h in
        let (holds', built', sim) = Step-Seen step built holds in
        (holds', built', elim sim [ inl (e, f) ↦ rw (e, f) atomic | inr a ↦ and_then atomic a ])

    start-AllHold : (qs : List (Request E)) → AllHold (start E qs)
    start-AllHold [] = tt
    start-AllHold (q ∷ qs) = (tt, start-AllHold qs)

    seen-start : (qs : List (Request E)) → seen_calls E (start E qs) ≡ all_waiting E qs
    seen-start [] = refl
    seen-start (q ∷ qs) = ap (λ x. (q, waiting) ∷ x) (seen-start qs)

  -- However the steps of calls of `Update` that run at once interleave, in a process without hooks
  -- whose cache holds under each key what was built for a set of columns with that key, those that
  -- are behind their statement have the results that they would have one after the other in some
  -- order, each made at once and without the cache, with the same changes to the objects and the
  -- database; and the cache stays like that. So two calls that both miss the cache do no harm.
  pub update-atomic :
      (w : World S) (qs : List (Request E)) (n : ℕ) (t : Shared E) (ds : List (Call E))
      → E.hooks ≡ no_hooks
      → All (IsBuilt E) w.update_cache
      → Run E (open_to_all E w) (start E qs) n t ds
      → AtomicRun E
          (without_cache E w)
          (all_waiting E qs)
          (without_cache E t.world)
          (seen_calls E ds)
        × All (IsBuilt E) t.world.update_cache
  update-atomic w qs n t ds quiet built run =
      let (holds, built', atomic) = Run-Atomic quiet run built (start-AllHold quiet qs) in
      (rw (← (seen-start quiet qs)) atomic, built')
