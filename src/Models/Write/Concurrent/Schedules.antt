-- ===== src/Models/Write/Concurrent/Schedules.antt =====
-- models/users.go: calls of `Update` under a given schedule.
use mathlib.Core.Option
use mathlib.Core.Option.{none-ne-some, some-injective}
use mathlib.Core.Path.{subst}
use users_api.Base.{
  ℕ, Option, none, some, List, [], ◌∷◌, ◌≡◌, zero, suc, nat_eq, string_eq, inl, inr, Option-cases,
}
use users_api.Models.Env.{Env}
use users_api.Models.Write.Concurrent.{
  Phase, Request, Shared, advance, Call, Step, here, there, Run, then_step,
}

module _ (E : Env) where
  open E use {sql as S}

  abbrev with_first : Request E → List (Call E) → Phase × Shared E → Shared E × List (Call E)
  with_first q cs (p, t) = (t, (q, p) ∷ cs)

  abbrev with_rest : Call E → Shared E × List (Call E) → Shared E × List (Call E)
  with_rest c (t, ds) = (t, c ∷ ds)

  -- The next step of the call with an index, if it can make one.
  unfoldable pub pick : ℕ → Shared E → List (Call E) → Option (Shared E × List (Call E))
  unfolding advance
  pick i s [] = none
  pick zero s ((q, p) ∷ cs) = Option.map (with_first q cs) (advance E q p s)
  pick (suc i) s (c ∷ cs) = Option.map (with_rest c) (pick i s cs)

  unfoldable pub follow : List ℕ → Shared E → List (Call E) → Option (Shared E × List (Call E))
  unfolding pick
  follow [] s cs = some (s, cs)
  follow (i ∷ is) s cs = elim (pick i s cs) [ none ↦ none | some (t, ds) ↦ follow is t ds ]

  pick-Step :
      (i : ℕ) (s t : Shared E) (cs ds : List (Call E))
      → pick i s cs ≡ some (t, ds)
      → Step E s t cs ds
  unfolding pick
  pick-Step i s t [] ds e = cc
  pick-Step zero s t ((q, p) ∷ cs) ds e =
      let (x, step, same) = (Option.map-eq-some_iff (with_first q cs) (advance E q p s)).0 e in
      subst (λ y. Step E s y.0 ((q, p) ∷ cs) y.1) same (here step)
  pick-Step (suc i) s t (c ∷ cs) ds e =
      let (x, step, same) = (Option.map-eq-some_iff (with_rest c) (pick i s cs)).0 e in
      subst (λ y. Step E s y.0 (c ∷ cs) y.1) same (there (pick-Step i s x.0 cs x.1 step))

  abbrev pub steps_after : ℕ → List ℕ → ℕ
  steps_after n [] = n
  steps_after n (i ∷ is) = steps_after (suc n) is

  -- A schedule that can be followed is a run.
  pub follow-Run :
      (is : List ℕ) (s : Shared E) (cs : List (Call E)) (n : ℕ) (t u : Shared E)
      (ds es : List (Call E))
      → Run E s cs n t ds
      → follow is t ds ≡ some (u, es)
      → Run E s cs (steps_after n is) u es
  unfolding follow
  follow-Run [] s cs n t u ds es run e =
      subst (λ y. Run E s cs n y.0 y.1) (some-injective (t, ds) (u, es) e) run
  follow-Run (i ∷ is) s cs n t u ds es run e = elim (Option-cases (pick i t ds)) [
    | inl stuck ↦ absurd (none-ne-some (u, es) (rw (stuck, follow) at e))
    | inr ((t', ds'), step) ↦
        follow-Run is s cs (suc n) t' u ds' es (then_step run (pick-Step i t t' ds ds' step))
          (rw (step, follow) at e)
  ]
