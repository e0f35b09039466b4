-- ===== src/Models/Runs.antt =====
-- What a read of the generated layer leaves behind: pointers stay good, the columns of the objects
-- stay as they were, the database and the cached updates are not touched, nothing panics, and an
-- error has a reason.
pub mod Reasons
pub mod Steps
pub mod Writing
pub mod Loading
pub mod Related
pub mod Referrers
pub mod Finish
use users_api.Base.{
  ℕ, suc, ◌+◌, ◌≤◌, ◌<◌, String, Option, none, some, List, ◌≡◌, refl, ◌∙◌, ◌≢◌, arith,
}
use mathlib.Core.Path.{subst}
use users_api.Go.Error.{Error}
use users_api.Go.Result.{Result, ok, err, panic, map_err, failed}
use users_api.Go.Exec.{Exec, pure, raise, lift, wrapping, continue, ◌>>=◌}
use users_api.Models.User.{Row, UserPtr, UserR, User}
use users_api.Models.Sql.{Sql, Conn, Query}
use users_api.Models.World.{Heap, World}

-- Every pointer below `next` has its object, and the loaded referrers are such pointers.
pub record IsWf (h : Heap) : Type 0 where
  pub allocated : (p : UserPtr) → p < h.next → (u : User) × (h.cell p ≡ some u)
  pub closed :
      (p : UserPtr) (u : User) (r : UserR) (q : UserPtr)
      → h.cell p ≡ some u
      → u.r ≡ some r
      → r.referring_user ≡ some q
      → q < h.next

-- No object is lost, and each keeps its columns and its relations struct, once it has one.
pub record Extends (h h' : Heap) : Type 0 where
  pub grows : h.next ≤ h'.next
  pub columns :
      (p : UserPtr) (u : User)
      → p < h.next
      → h.cell p ≡ some u
      → (u' : User) × (h'.cell p ≡ some u') × (u'.columns ≡ u.columns) × (u.r ≢ none → u'.r ≢ none)

pub Extends-refl : (h : Heap) → Extends h h
Extends-refl h = record { grows = omega arith; columns = λ p u _ e. (u, e, refl, λ n. n) }

pub Extends-trans : {h i j : Heap} → Extends h i → Extends i j → Extends h j
Extends-trans a b = record {
  grows = omega (arith, a.grows, b.grows);
  columns = λ p u lt e.
      let (v, ev, cv, rv) = a.columns p u lt e in
      let (x, ex, cx, rx) = b.columns p v (omega (arith, a.grows)) ev in
      (x, ex, cc, λ n. rx (rv n));
}

-- The value of a call, if it returns one, has a property; an error needs a reason, and a panic is
-- excluded.
abbrev pub Holds {ℓ} : {A : Type ℓ} → Result A → Type 0 → (A → Type 0) → Type 0
Holds (ok a) F Q = Q a
Holds (err e) F Q = F
Holds (panic why) F Q = ⊥

-- One reason for another.
Holds-reason {ℓ} :
    {A : Type ℓ} {F G : Type 0} (Q : A → Type 0) (r : Result A)
    → (F → G)
    → Holds r F Q
    → Holds r G Q
Holds-reason Q (ok a) f h = h
Holds-reason Q (err e) f h = f h
Holds-reason Q (panic why) f h = h

module _ {S : Sql} where
  -- An outcome that was reached from the world `w`, and the reason of an error.
  pub record Runs {A : Type 0} (F : Type 0) (w : World S) (o : Result A × World S)
      (Q : A → World S → Type 0) : Type 0 where
    pub wf : IsWf o.1.heap
    pub extends : Extends w.heap o.1.heap
    pub db : o.1.db ≡ w.db
    pub cache : o.1.update_cache ≡ w.update_cache
    pub result : Holds o.0 F (λ a. Q a o.1)

module _ {S : Sql} {A B F : Type 0} {w : World S} {Q : A → World S → Type 0}
    {R : B → World S → Type 0} where
  -- What follows a call may use what the call guarantees.
  continue-Runs :
      (r : Result A) (w' : World S) (f : A → Exec (World S) B)
      → Runs F w (r, w') Q
      → ((a : A)
          → IsWf w'.heap
          → Extends w.heap w'.heap
          → w'.db ≡ w.db
          → Q a w'
          → Runs F w' (f a w') R)
      → Runs F w (continue r f w') R
  continue-Runs (ok a) w' f h k =
      let g = k a h.wf h.extends h.db h.result in
      record {
        wf = g.wf;
        extends = Extends-trans h.extends g.extends;
        db = g.db ∙ h.db;
        cache = g.cache ∙ h.cache;
        result = g.result;
      }
  continue-Runs (err e) w' f h k = record {
    wf = h.wf;
    extends = h.extends;
    db = h.db;
    cache = h.cache;
    result = h.result;
  }
  continue-Runs (panic why) w' f h k = absurd h.result

  pub bind-Runs :
      (m : Exec (World S) A) (f : A → Exec (World S) B)
      → Runs F w (m w) Q
      → ((a : A) (w' : World S)
          → IsWf w'.heap
          → Extends w.heap w'.heap
          → w'.db ≡ w.db
          → Q a w'
          → Runs F w' (f a w') R)
      → Runs F w ((m >>= f) w) R
  bind-Runs m f h k = let (r, w') = m w in continue-Runs r w' f h (λ a. k a w')

module _ {S : Sql} {A F G : Type 0} {w : World S} {Q : A → World S → Type 0} where
  -- The same outcome with another reason.
  pub reason-Runs : (m : Exec (World S) A) → (F → G) → Runs F w (m w) Q → Runs G w (m w) Q
  reason-Runs m f h = record {
    wf = h.wf;
    extends = h.extends;
    db = h.db;
    cache = h.cache;
    result = Holds-reason (λ a. Q a (m w).1) (m w).0 f h.result;
  }

module _ {S : Sql} where
  -- An outcome after which objects may have other columns than before.
  pub record Ends {A : Type 0} (F : Type 0) (w : World S) (o : Result A × World S)
      (Q : A → World S → Type 0) : Type 0 where
    pub wf : IsWf o.1.heap
    pub db : o.1.db ≡ w.db
    pub cache : o.1.update_cache ≡ w.update_cache
    pub result : Holds o.0 F (λ a. Q a o.1)

module _ {S : Sql} {A F : Type 0} {w : World S} {Q : A → World S → Type 0} where
  pub Runs-Ends : (m : Exec (World S) A) → Runs F w (m w) Q → Ends F w (m w) Q
  Runs-Ends m h = record { wf = h.wf; db = h.db; cache = h.cache; result = h.result }

module _ {S : Sql} {A B F : Type 0} {w : World S} {Q : A → World S → Type 0}
    {R : B → World S → Type 0} where
  continue-Ends :
      (r : Result A) (w' : World S) (f : A → Exec (World S) B)
      → Ends F w (r, w') Q
      → ((a : A) → IsWf w'.heap → w'.db ≡ w.db → Q a w' → Ends F w' (f a w') R)
      → Ends F w (continue r f w') R
  continue-Ends (ok a) w' f h k =
      let g = k a h.wf h.db h.result in
      record { wf = g.wf; db = g.db ∙ h.db; cache = g.cache ∙ h.cache; result = g.result }
  continue-Ends (err e) w' f h k = record {
    wf = h.wf;
    db = h.db;
    cache = h.cache;
    result = h.result;
  }
  continue-Ends (panic why) w' f h k = absurd h.result

  pub bind-Ends :
      (m : Exec (World S) A) (f : A → Exec (World S) B)
      → Ends F w (m w) Q
      → ((a : A) (v : World S) → IsWf v.heap → v.db ≡ w.db → Q a v → Ends F v (f a v) R)
      → Ends F w ((m >>= f) w) R
  bind-Ends m f h k = let (r, w') = m w in continue-Ends r w' f h (λ a. k a w')

-- A good pointer, one whose object has a relations struct, and one whose object has given columns.
-- All three stay true in what extends the heap.
pub record HasR (h : Heap) (p : UserPtr) : Type 0 where
  pub below : p < h.next
  pub user : User
  pub relations : UserR
  pub here : h.cell p ≡ some user
  pub loaded : user.r ≡ some relations

pub record HasColumns (h : Heap) (p : UserPtr) (row : Row) : Type 0 where
  pub below : p < h.next
  pub user : User
  pub here : h.cell p ≡ some user
  pub same : user.columns ≡ row

from_ne_none :
    (h : Heap) (p : UserPtr) (u : User) (o : Option UserR)
    → p < h.next
    → h.cell p ≡ some u
    → u.r ≡ o
    → u.r ≢ none
    → HasR h p
from_ne_none h p u none lt e q n = absurd (n q)
from_ne_none h p u (some r) lt e q n = record {
  below = lt;
  user = u;
  relations = r;
  here = e;
  loaded = q;
}

pub HasR-Extends : {h h' : Heap} (p : UserPtr) → Extends h h' → HasR h p → HasR h' p
HasR-Extends {h'} p x a =
    let (u, e, _, r) = x.columns p a.user a.below a.here in
    from_ne_none h' p u u.r (omega (arith, x.grows, a.below)) e refl (r (λ z. cc (a.loaded)))

pub HasColumns-Extends :
    {h h' : Heap} {row : Row} (p : UserPtr)
    → Extends h h'
    → HasColumns h p row
    → HasColumns h' p row
HasColumns-Extends p x a =
    let (u, e, c, _) = x.columns p a.user a.below a.here in
    record { below = omega (arith, x.grows, a.below); user = u; here = e; same = c ∙ a.same }
