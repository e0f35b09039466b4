-- ===== src/Go/Steps.antt =====
-- How calls in sequence run, one after the other.
use users_api.Base.{◌≡◌, refl}
use users_api.Go.Error.{Error}
use users_api.Go.Result.{Result, ok, err, panic}
use users_api.Go.Exec.{Exec, continue, ◌>>=◌, ◌>>◌}

module _ {ℓ} {S A B : Type ℓ} where
  -- After a call that returned, the rest runs.
  pub bind-ok :
      (m : Exec S A) (f : A → Exec S B) (w v : S) (a : A) → m w ≡ (ok a, v) → (m >>= f) w ≡ f a v
  bind-ok m f w v a e = rw e refl

  -- After a call that failed, nothing does.
  pub bind-err :
      (m : Exec S A) (f : A → Exec S B) (w v : S) (e : Error)
      → m w ≡ (err e, v)
      → (m >>= f) w ≡ (err e, v)
  bind-err m f w v e h = rw h refl

module _ {ℓ} {S A B C : Type ℓ} where
  -- Two calls as one, before a third.
  pub then_assoc :
      (m : Exec S A) (n : Exec S B) (k : Exec S C) (w : S) → ((m >> n) >> k) w ≡ (m >> (n >> k)) w
  then_assoc m n k w = go (m w).0 (m w).1
    where
      go :
          (r : Result A) (v : S)
          → (let (s, x) = continue r (λ _. n) v in continue s (λ _. k) x)
            ≡ continue r (λ _. n >> k) v
      go (ok a) v = refl
      go (err e) v = refl
      go (panic why) v = refl
