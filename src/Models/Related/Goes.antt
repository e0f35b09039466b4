-- ===== src/Models/Related/Goes.antt =====
-- models/users.go: outcomes of calls that execute statements: none panics, and an error comes
-- from one of the statements.
use users_api.Base.{◌≡◌}
use users_api.Go.Error.{Error}
use users_api.Go.Result.{Result, ok, err, panic, failed}
use users_api.Go.Exec.{Exec, continue, ◌>>=◌}
use users_api.Models.Sql.{Sql, Conn, Statement}
use users_api.Models.World.{World}
use users_api.Models.Runs.{Holds}

-- A statement fails.
pub data ExecFails (S : Sql) : Type 0 where
  exec_fails :
      (conn : Conn S.Tx) (statement : Statement) (d : S.Db) (e : Error)
      → (S.exec conn statement d).0 ≡ failed e
      → ExecFails S

-- An outcome without a panic, with an error only if a statement fails, and with a property of the
-- value and the state.
pub record Goes {S : Sql} {A : Type 0} (x : Result A × World S) (Q : A → World S → Type 0)
    : Type 0 where
  pub holds : Holds x.0 (ExecFails S) (λ a. Q a x.1)

module _ {S : Sql} {A B : Type 0} {Q : A → World S → Type 0} {R : B → World S → Type 0} where
  continued :
      (r : Result A) (v : World S) (f : A → Exec (World S) B)
      → Goes (r, v) Q
      → ((a : A) → Q a v → Goes (f a v) R)
      → Goes (continue r f v) R
  continued (ok a) v f h k = k a h.holds
  continued (err e) v f h k = record { holds = h.holds }
  continued (panic why) v f h k = absurd h.holds

  pub bind-Goes :
      (m : Exec (World S) A) (f : A → Exec (World S) B) (w : World S)
      → Goes (m w) Q
      → ((a : A) (v : World S) → Q a v → Goes (f a v) R)
      → Goes ((m >>= f) w) R
  bind-Goes m f w h k = continued (m w).0 (m w).1 f h (λ a. k a (m w).1)

module _ {S : Sql} {A : Type 0} {Q R : A → World S → Type 0} where
  pub mapped :
      (x : Result A × World S) → Goes x Q → ((a : A) (v : World S) → Q a v → R a v) → Goes x R
  mapped (ok a, v) h f = record { holds = f a v h.holds }
  mapped (err e, v) h f = record { holds = h.holds }
  mapped (panic why, v) h f = absurd h.holds

  -- Two properties of one outcome.
  pub both-Goes : (x : Result A × World S) → Goes x Q → Goes x R → Goes x (λ a v. Q a v × R a v)
  both-Goes (ok a, v) h k = record { holds = (h.holds, k.holds) }
  both-Goes (err e, v) h k = record { holds = h.holds }
  both-Goes (panic why, v) h k = absurd h.holds
