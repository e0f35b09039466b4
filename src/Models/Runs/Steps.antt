-- ===== src/Models/Runs/Steps.antt =====
-- The rules for the forms of a call: a value, an attempt, a change of an error, a branch for one,
-- a read through a pointer.
use users_api.Base.{Option, ◌<◌, none, some, ◌≡◌, refl, ◌∙◌, nat_eq}
use users_api.Go.Result.{Result, ok, err, panic, map_err, Attempt, done, failed, attempt}
use users_api.Go.Error.{Error}
use users_api.Go.Exec.{Exec, pure, lift, wrapping, try, handle_result, ◌>>=◌}
use users_api.Models.User.{UserPtr}
use users_api.Models.Sql.{Sql}
use users_api.Models.World.{World, get_user, get_optional}
use users_api.Models.Runs.{IsWf, Extends, Extends-refl, Runs, Ends, bind-Runs, bind-Ends, Runs-Ends}

module _ {S : Sql} {A : Type 0} {w : World S} {Q : A → World S → Type 0} where
  pub pure-Runs : {F : Type 0} → (a : A) → IsWf w.heap → Q a w → Runs F w (pure a w) Q
  pure-Runs a wf q = record {
    wf = wf;
    extends = Extends-refl w.heap;
    db = refl;
    cache = refl;
    result = q;
  }

  pub attempt-Runs :
      {F : Type 0}
      → (r : Attempt A) → IsWf w.heap
      → ((a : A) → r ≡ done a → Q a w)
      → ((e : Error) → r ≡ failed e → F)
      → Runs F w (attempt r, w) Q
  attempt-Runs (done a) wf q f = record {
    wf = wf;
    extends = Extends-refl w.heap;
    db = refl;
    cache = refl;
    result = q a refl;
  }
  attempt-Runs (failed e) wf q f = record {
    wf = wf;
    extends = Extends-refl w.heap;
    db = refl;
    cache = refl;
    result = f e refl;
  }

  map_err-Runs :
      {F : Type 0}
      → (f : Error → Error) (r : Result A) (w' : World S) → Runs F w (r, w') Q
      → Runs F w (map_err f r, w') Q
  map_err-Runs f (ok a) w' h = record {
    wf = h.wf;
    extends = h.extends;
    db = h.db;
    cache = h.cache;
    result = h.result;
  }
  map_err-Runs f (err e) w' h = record {
    wf = h.wf;
    extends = h.extends;
    db = h.db;
    cache = h.cache;
    result = h.result;
  }
  map_err-Runs f (panic why) w' h = absurd h.result

  pub wrapping-Runs :
      {F : Type 0}
      → (f : Error → Error) (m : Exec (World S) A) → Runs F w (m w) Q
      → Runs F w (wrapping f m w) Q
  wrapping-Runs f m h = let (r, w') = m w in map_err-Runs f r w' h

module _ {S : Sql} {A : Type 0} {w : World S} {P Q : A → World S → Type 0} where
  weaken_result :
      {F : Type 0}
      → (r : Result A) (w' : World S) → Runs F w (r, w') P
      → ((a : A) → Extends w.heap w'.heap → P a w' → Q a w')
      → Runs F w (r, w') Q
  weaken_result (ok a) w' h k = record {
    wf = h.wf;
    extends = h.extends;
    db = h.db;
    cache = h.cache;
    result = k a h.extends h.result;
  }
  weaken_result (err e) w' h k = record {
    wf = h.wf;
    extends = h.extends;
    db = h.db;
    cache = h.cache;
    result = h.result;
  }
  weaken_result (panic why) w' h k = absurd h.result

  -- A weaker statement about the value.
  pub weaken-Runs :
      {F : Type 0}
      → (m : Exec (World S) A) → Runs F w (m w) P
      → ((a : A) (w' : World S) → Extends w.heap w'.heap → P a w' → Q a w')
      → Runs F w (m w) Q
  weaken-Runs m h k = let (r, w') = m w in weaken_result r w' h (λ a. k a w')

module _ {S : Sql} (w : World S) where
  pub get_user-Runs :
      {F : Type 0}
      → IsWf w.heap
      → (p : UserPtr) → p < w.heap.next
      → Runs F w (get_user p w) (λ u v. v.heap.cell p ≡ some u)
  unfolding get_user
  get_user-Runs wf p lt =
      let (u, e) = wf.allocated p lt in
      rw (e, get_user)
        (record { wf = wf; extends = Extends-refl w.heap; db = refl; cache = refl; result = e })

module _ {S : Sql} (w : World S) where
  pub get_optional-Runs :
      {F : Type 0}
      → IsWf w.heap
      → (o : Option UserPtr) → ((p : UserPtr) → o ≡ some p → p < w.heap.next)
      → Runs F w (get_optional o w) (λ _ _. Unit)
  unfolding get_optional
  get_optional-Runs wf none good = pure-Runs none wf tt
  get_optional-Runs wf (some p) good =
      bind-Runs (get_user p) _ (get_user-Runs w wf p (good p refl))
        λ u v wfv _ _ _. pure-Runs (some u) wfv tt

module _ {S : Sql} {A : Type 0} {w : World S} where
  -- A result that is known.
  pub lift-Runs :
      {F : Type 0}
      → (r : Result A) {a : A} → r ≡ ok a
      → IsWf w.heap
      → Runs F w (lift r w) (λ b _. b ≡ a)
  lift-Runs (ok b) e wf = pure-Runs b wf (cc)
  lift-Runs (err x) e wf = cc
  lift-Runs (panic why) e wf = cc

module _ {S : Sql} {A B : Type 0} {w : World S} {Q : A → World S → Type 0}
    {R : B → World S → Type 0} where
  pub bind-Runs_Ends :
      {F : Type 0}
      → (m : Exec (World S) A) (f : A → Exec (World S) B) → Runs F w (m w) Q
      → ((a : A) (v : World S)
          → IsWf v.heap
          → Extends w.heap v.heap
          → v.db ≡ w.db
          → Q a v
          → Ends F v (f a v) R)
      → Ends F w ((m >>= f) w) R
  bind-Runs_Ends m f h k =
      bind-Ends {Q = λ a v. Extends w.heap v.heap × Q a v} m f
        (Runs-Ends m (weaken-Runs m h (λ a v x q. (x, q)))) λ a v wfv db (x, q). k a v wfv x db q

module _ {S : Sql} {A : Type 0} {w : World S} {P Q : A → World S → Type 0} where
  weaken_end :
      {F : Type 0}
      → (r : Result A) (w' : World S) → Ends F w (r, w') P
      → ((a : A) → P a w' → Q a w')
      → Ends F w (r, w') Q
  weaken_end (ok a) w' h k = record { wf = h.wf; db = h.db; cache = h.cache; result = k a h.result }
  weaken_end (err e) w' h k = record { wf = h.wf; db = h.db; cache = h.cache; result = h.result }
  weaken_end (panic why) w' h k = absurd h.result

  pub weaken-Ends :
      {F : Type 0}
      → (m : Exec (World S) A) → Ends F w (m w) P
      → ((a : A) (w' : World S) → P a w' → Q a w')
      → Ends F w (m w) Q
  weaken-Ends m h k = let (r, w') = m w in weaken_end r w' h (λ a. k a w')

module _ {S : Sql} {A B : Type 0} {w : World S} {Q : A → World S → Type 0}
    {R : B → World S → Type 0} where
  handle_result-Ends :
      {F G : Type 0}
      → (r : Result A) (v : World S) (f : A → Exec (World S) B) (g : Error → Exec (World S) B)
      → Runs F w (r, v) Q
      → ((a : A) → IsWf v.heap → Extends w.heap v.heap → v.db ≡ w.db → Q a v → Ends G v (f a v) R)
      → ((e : Error) → IsWf v.heap → Extends w.heap v.heap → v.db ≡ w.db → F → Ends G v (g e v) R)
      → Ends G w (handle_result r f g v) R
  handle_result-Ends (ok a) v f g h k l =
      let t = k a h.wf h.extends h.db h.result in
      record { wf = t.wf; db = t.db ∙ h.db; cache = t.cache ∙ h.cache; result = t.result }
  handle_result-Ends (err e) v f g h k l =
      let t = l e h.wf h.extends h.db h.result in
      record { wf = t.wf; db = t.db ∙ h.db; cache = t.cache ∙ h.cache; result = t.result }
  handle_result-Ends (panic why) v f g h k l = absurd h.result

  -- `try` for a call with a branch for its error.
  pub try-Ends :
      {F G : Type 0}
      → (m : Exec (World S) A) (f : A → Exec (World S) B) (g : Error → Exec (World S) B)
      → Runs F w (m w) Q
      → ((a : A) (v : World S)
          → IsWf v.heap
          → Extends w.heap v.heap
          → v.db ≡ w.db
          → Q a v
          → Ends G v (f a v) R)
      → ((e : Error) (v : World S)
          → IsWf v.heap
          → Extends w.heap v.heap
          → v.db ≡ w.db
          → F
          → Ends G v (g e v) R)
      → Ends G w (try m f g w) R
  try-Ends m f g h k l = let (r, v) = m w in handle_result-Ends r v f g h (λ a. k a v) (λ e. l e v)
