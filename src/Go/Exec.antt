-- ===== src/Go/Exec.antt =====
-- Calls that change a state: what was written before an error or a panic stays written.
use users_api.Base.{String, List, [], ◌∷◌}
use users_api.Go.Error.{Error}
use users_api.Go.Result.{Result, ok, err, panic, map_err}

abbrev pub Exec {ℓ} : Type ℓ → Type ℓ → Type ℓ
Exec S A = S → Result A × S

module _ {ℓ} {S A : Type ℓ} where
  abbrev pub pure : A → Exec S A
  pure a s = (ok a, s)

  abbrev pub raise : Error → Exec S A
  raise e s = (err e, s)

  abbrev pub crash : String → Exec S A
  crash why s = (panic why, s)

  abbrev pub lift : Result A → Exec S A
  lift r s = (r, s)

  abbrev pub gets : (S → A) → Exec S A
  gets f s = (ok (f s), s)

  -- The error of a call, changed before it is returned.
  abbrev pub wrapping : (Error → Error) → Exec S A → Exec S A
  wrapping f m s = let (r, s') = m s in (map_err f r, s')

module _ {ℓ} {S A B : Type ℓ} where
  abbrev pub continue : Result A → (A → Exec S B) → Exec S B
  continue (ok a) f s = f a s
  continue (err e) f s = (err e, s)
  continue (panic why) f s = (panic why, s)

  infixl 5 ◌>>=◌ ◌>>◌
  abbrev pub ◌>>=◌ : Exec S A → (A → Exec S B) → Exec S B
  ◌>>=◌ m f s = let (r, s') = m s in continue r f s'

  abbrev pub ◌>>◌ : Exec S A → Exec S B → Exec S B
  m >> n = m >>= λ _. n

  -- `a, err := m` with a branch for each: a panic goes on.
  abbrev pub handle_result : Result A → (A → Exec S B) → (Error → Exec S B) → Exec S B
  handle_result (ok a) f g s = f a s
  handle_result (err e) f g s = g e s
  handle_result (panic why) f g s = (panic why, s)

  abbrev pub try : Exec S A → (A → Exec S B) → (Error → Exec S B) → Exec S B
  try m f g s = let (r, s') = m s in handle_result r f g s'

-- `for _, x := range xs { if err := f(x); err != nil { return err } }`
unfoldable pub for_each {ℓ κ} :
    {S : Type ℓ} {X : Type κ} → (X → Exec S (Unit {ℓ})) → List X → Exec S (Unit {ℓ})
for_each f [] = pure tt
for_each f (x ∷ xs) = f x >> for_each f xs
