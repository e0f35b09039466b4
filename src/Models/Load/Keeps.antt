-- ===== src/Models/Load/Keeps.antt =====
-- models/users.go: the rules that carry the links between objects through the calls of a loader.
use mathlib.Core.Option.{some-injective, none-ne-some}
use users_api.Base.{
  ◌≤◌, ◌<◌, Option, none, some, ◌≡◌, refl, ap, ◌∙◌, inl, inr, arith, Option-cases, nat_eq,
}
use users_api.Go.Error.{Error}
use users_api.Go.Result.{Result, ok, err, panic, map_err, Attempt, done, failed, attempt}
use users_api.Go.Exec.{Exec, pure, wrapping, continue, ◌>>=◌}
use users_api.Go.Library.{Library}
use users_api.Models.User.{Row, UserPtr, UserR, User, empty_r}
use users_api.Models.Sql.{Sql}
use users_api.Models.World.{Heap, World, get_user, put_user, new_user}
use users_api.Models.Objects.{get_user_lem, written, set_cell_there}
use users_api.Models.Runs.{HasColumns, Holds}
use users_api.Models.Load.{ensure_r, modify_r, give_r, change_r}
use users_api.Models.Load.Linked.{Named, IsLinked, set_cell-IsLinked, new_cell-IsLinked}

-- The objects of a heap are as they were.
abbrev pub Same : Heap → Heap → Type 0
Same h h' = (q : UserPtr) → q < h.next → h'.cell q ≡ h.cell q

-- The value of a call that returns has a property.
abbrev pub Returns {ℓ} : {A : Type ℓ} → Result A → (A → Type 0) → Type 0
Returns (ok a) Q = Q a
Returns (err e) Q = Unit
Returns (panic why) Q = Unit

-- A call that returns, or fails for a reason, with what is known of the value that it returns.
pub Returns-Holds {ℓ} :
    {A : Type ℓ} (P Q : A → Type 0) (F : Type 0) (r : Result A)
    → Returns r Q
    → Holds r F P
    → Holds r F Q
Returns-Holds P Q F (ok a) q h = q
Returns-Holds P Q F (err e) q h = h
Returns-Holds P Q F (panic why) q h = h

-- A call from the world `w` leaves only links that the keys name, loses no object, and returns, if it
-- does, a value with a property.
pub record Keeps (L : Library) {S : Sql} {A : Type 0} (w : World S) (o : Result A × World S)
    (Q : A → World S → Type 0) : Type 0 where
  pub linked : IsLinked L o.1.heap
  pub grows : w.heap.next ≤ o.1.heap.next
  pub result : Returns o.0 (λ a. Q a o.1)

module _ (L : Library) {S : Sql} {A : Type 0} {w : World S} {Q : A → World S → Type 0} where
  pub pure-Keeps : (a : A) → IsLinked L w.heap → Q a w → Keeps L w (pure a w) Q
  pure-Keeps a good q = record { linked = good; grows = omega arith; result = q }

  wrapped :
      (f : Error → Error) (r : Result A) (v : World S)
      → Keeps L w (r, v) Q
      → Keeps L w (map_err f r, v) Q
  wrapped f (ok a) v h = h
  wrapped f (err e) v h = record { linked = h.linked; grows = h.grows; result = tt }
  wrapped f (panic why) v h = h

  pub wrapping-Keeps :
      (f : Error → Error) (m : Exec (World S) A) → Keeps L w (m w) Q → Keeps L w (wrapping f m w) Q
  wrapping-Keeps f m h = wrapped f (m w).0 (m w).1 h

module _ (L : Library) {S : Sql} {A : Type 0} {w : World S} {P Q : A → World S → Type 0} where
  weakened :
      (r : Result A) (v : World S)
      → Keeps L w (r, v) P
      → ((a : A) → P a v → Q a v)
      → Keeps L w (r, v) Q
  weakened (ok a) v h f = record { linked = h.linked; grows = h.grows; result = f a h.result }
  weakened (err e) v h f = record { linked = h.linked; grows = h.grows; result = tt }
  weakened (panic why) v h f = record { linked = h.linked; grows = h.grows; result = tt }

  -- A weaker statement about the value.
  pub weaken-Keeps :
      (m : Exec (World S) A)
      → Keeps L w (m w) P
      → ((a : A) (v : World S) → P a v → Q a v)
      → Keeps L w (m w) Q
  weaken-Keeps m h f = weakened (m w).0 (m w).1 h (λ a. f a (m w).1)

module _ (L : Library) {S : Sql} {A : Type 0} (w : World S) (good : IsLinked L w.heap) where
  -- A call of another package that leaves the world alone.
  pub attempt-Keeps : (r : Attempt A) → Keeps L w (attempt r, w) (λ a v. (v ≡ w) × (r ≡ done a))
  attempt-Keeps (done a) = record { linked = good; grows = omega arith; result = (refl, refl) }
  attempt-Keeps (failed e) = record { linked = good; grows = omega arith; result = tt }

module _ (L : Library) {S : Sql} {A B : Type 0} {w : World S} {Q : A → World S → Type 0}
    {R : B → World S → Type 0} where
  continued :
      (r : Result A) (v : World S) (f : A → Exec (World S) B)
      → Keeps L w (r, v) Q
      → ((a : A) → IsLinked L v.heap → w.heap.next ≤ v.heap.next → Q a v → Keeps L v (f a v) R)
      → Keeps L w (continue r f v) R
  continued (ok a) v f h k =
      let g = k a h.linked h.grows h.result in
      record { linked = g.linked; grows = omega (arith, h.grows, g.grows); result = g.result }
  continued (err e) v f h k = record { linked = h.linked; grows = h.grows; result = tt }
  continued (panic why) v f h k = record { linked = h.linked; grows = h.grows; result = tt }

  -- What follows a call may use what the call guarantees.
  pub bind-Keeps :
      (m : Exec (World S) A) (f : A → Exec (World S) B)
      → Keeps L w (m w) Q
      → ((a : A) (v : World S)
          → IsLinked L v.heap
          → w.heap.next ≤ v.heap.next
          → Q a v
          → Keeps L v (f a v) R)
      → Keeps L w ((m >>= f) w) R
  bind-Keeps m f h k = continued (m w).0 (m w).1 f h (λ a. k a (m w).1)

module _ (L : Library) {S : Sql} (w : World S) (good : IsLinked L w.heap) where
  pub get_user-Keeps :
      (p : UserPtr) → Keeps L w (get_user p w) (λ u v. (v ≡ w) × (w.heap.cell p ≡ some u))
  unfolding get_user
  get_user-Keeps p = elim (Option-cases (w.heap.cell p)) [
    | inl gone ↦ rw (gone, get_user) (record { linked = good; grows = omega arith; result = tt })
    | inr (u, here) ↦
        rw (get_user_lem w p u here)
          (record { linked = good; grows = omega arith; result = (refl, here) })
  ]

  pub put_user-Keeps :
      (p : UserPtr) (u old : User)
      → w.heap.cell p ≡ some old
      → u.columns ≡ old.columns
      → ((r : UserR) (q : UserPtr) → u.r ≡ some r → r.referring_user ≡ some q → Named L w.heap u q)
      → Keeps L w (put_user p u w) (λ _ v. v ≡ written p u w)
  unfolding put_user
  put_user-Keeps p u old here kept links = record {
    linked = set_cell-IsLinked L w.heap good p u old here kept links;
    grows = omega arith;
    result = refl;
  }

  pub new_user-Keeps :
      (row : Row)
      → Keeps L w
          (new_user (record { columns = row; r = none }) w)
          (λ p v. HasColumns v.heap p row × Same w.heap v.heap)
  unfolding new_user
  new_user-Keeps row = record {
    linked = new_cell-IsLinked L w.heap good row;
    grows = omega arith;
    result = (
      record {
        below = omega arith;
        user = record { columns = row; r = none };
        here = ground arith;
        same = refl;
      },
      λ q lt.
          set_cell_there w.heap.cell w.heap.next q (record { columns = row; r = none })
            (λ e. absurd (omega (arith, e, lt))),
    );
  }

module _ (L : Library) {S : Sql} where
  give_r-Keeps :
      (w : World S)
      → IsLinked L w.heap
      → (p : UserPtr) (u : User) (o : Option UserR) → w.heap.cell p ≡ some u
      → Keeps L w (give_r p u o w) (λ _ _. Unit)
  unfolding put_user
  give_r-Keeps w good p u none here =
      let h =
        put_user-Keeps L w good p (record u { r = some empty_r }) u here refl
          (λ r q e z. absurd (
            none-ne-some q
              (ap (λ (y : UserR). y.referring_user) (some-injective empty_r r e) ∙ z))) in
      record { linked = h.linked; grows = h.grows; result = tt }
  give_r-Keeps w good p u (some r) here = pure-Keeps L tt good tt

  pub ensure_r-Keeps :
      (w : World S) → IsLinked L w.heap → (p : UserPtr) → Keeps L w (ensure_r p w) (λ _ _. Unit)
  unfolding ensure_r
  ensure_r-Keeps w good p =
      bind-Keeps L (get_user p) (λ u. give_r p u u.r) (get_user-Keeps L w good p)
        λ u v goodv _ (same, here).
          give_r-Keeps v goodv p u u.r (ap (λ (x : World S). x.heap.cell p) same ∙ here)

  change_r-Keeps :
      (w : World S)
      → IsLinked L w.heap
      → (p : UserPtr) (u : User) (f : UserR → UserR) (o : Option UserR) → w.heap.cell p ≡ some u
      → u.r ≡ o
      → ((r : UserR) (q : UserPtr)
          → u.r ≡ some r
          → (f r).referring_user ≡ some q
          → Named L w.heap u q)
      → Keeps L w (change_r p u f o w) (λ _ _. Unit)
  unfolding put_user
  change_r-Keeps w good p u f none here loaded links = record {
    linked = good;
    grows = omega arith;
    result = tt;
  }
  change_r-Keeps w good p u f (some r) here loaded links =
      let h =
        put_user-Keeps L w good p (record u { r = some (f r) }) u here refl
          (λ s q e z.
            let n =
              links r q loaded
                (ap (λ (y : UserR). y.referring_user) (some-injective (f r) s e) ∙ z) in
            record { below = n.below; target = n.target; here = n.here; named = n.named }) in
      record { linked = h.linked; grows = h.grows; result = tt }

  pub modify_r-Keeps :
      (w : World S)
      → IsLinked L w.heap
      → (p : UserPtr) (f : UserR → UserR)
      → ((u : User) (r : UserR) (q : UserPtr)
          → w.heap.cell p ≡ some u
          → u.r ≡ some r
          → (f r).referring_user ≡ some q
          → Named L w.heap u q)
      → Keeps L w (modify_r p f w) (λ _ _. Unit)
  unfolding modify_r get_user
  modify_r-Keeps w good p f links = elim (Option-cases (w.heap.cell p)) [
    | inl gone ↦ rw (gone, get_user) (record { linked = good; grows = omega arith; result = tt })
    | inr (u, here) ↦
        rw (get_user_lem w p u here)
          (change_r-Keeps w good p u f u.r here refl (λ r q e z. links u r q here e z))
  ]
