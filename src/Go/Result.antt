-- ===== src/Go/Result.antt =====
-- What a Go call ends in: a value, an error, or a panic.
use users_api.Base.{String}
use users_api.Go.Error.{Error}

pub data Result {ℓ} (A : Type ℓ) : Type ℓ where
  ok : A → Result A
  err : Error → Result A
  panic : String → Result A

-- `if err != nil { return nil, f(err) }`: the error is changed, a panic goes on.
abbrev pub map_err {ℓ} : {A : Type ℓ} → (Error → Error) → Result A → Result A
map_err f (ok a) = ok a
map_err f (err e) = err (f e)
map_err f (panic why) = panic why

-- What a call of another package ends in, which is never a panic.
pub data Attempt {ℓ} (A : Type ℓ) : Type ℓ where
  done : A → Attempt A
  failed : Error → Attempt A

abbrev pub attempt {ℓ} : {A : Type ℓ} → Attempt A → Result A
attempt (done a) = ok a
attempt (failed e) = err e
