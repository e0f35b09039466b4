-- ===== src/Models/Load/Linked.antt =====
-- models/users.go: the links that the loaders of referrers make are those that the foreign keys name.
use mathlib.Core.Path.{subst}
use mathlib.Core.Option.{some-injective, none-ne-some}
use users_api.Base.{◌+◌, ◌<◌, true, none, some, ◌≡◌, sym, ap, ◌∙◌, arith, nat_eq}
use users_api.Go.Library.{Library}
use users_api.Models.User.{Row, UserPtr, UserR, User}
use users_api.Models.World.{Heap, set_cell}

-- The object that a key names.
pub record Named (L : Library) (h : Heap) (u : User) (q : UserPtr) : Type 0 where
  pub below : q < h.next
  pub target : User
  pub here : h.cell q ≡ some target
  pub named : L.key_equal_id u.columns.referring_user_id target.columns.id ≡ true

-- Each loaded referrer is the object that the foreign key names.
pub record IsLinked (L : Library) (h : Heap) : Type 0 where
  pub linked :
      (p : UserPtr) (u : User) (r : UserR) (q : UserPtr)
      → h.cell p ≡ some u
      → u.r ≡ some r
      → r.referring_user ≡ some q
      → Named L h u q

module _ (L : Library) (h : Heap) (good : IsLinked L h) where
  -- A write that keeps the columns and links, if at all, to what the key names.
  pub set_cell-IsLinked :
      (p : UserPtr) (u old : User)
      → h.cell p ≡ some old
      → u.columns ≡ old.columns
      → ((r : UserR) (q : UserPtr) → u.r ≡ some r → r.referring_user ≡ some q → Named L h u q)
      → IsLinked L (record h { cell = set_cell h.cell p u })
  set_cell-IsLinked p u old before kept links = record {
    linked = λ a x r q ea er eq. elim (nat_eq.dec p a) [
      | yes same ↦
          let e : u ≡ x = some-injective u x (ground (arith, ea, same)) in
          still x
            (subst (λ (z : User). Named L h z q) e (links r q (ap (λ (y : User). y.r) e ∙ er) eq))
      | no differ ↦ still x (good.linked a x r q (ground (arith, ea, differ)) er eq)
    ];
  }
    where
      still :
          {q : UserPtr} (x : User)
          → Named L h x q
          → Named L (record h { cell = set_cell h.cell p u }) x q
      still {q} x n = elim (nat_eq.dec p q) [
        | yes same ↦
            let c : u.columns ≡ n.target.columns =
              kept
              ∙ ap (λ (y : User). y.columns)
                  (some-injective old n.target (sym before ∙ (ap h.cell same ∙ n.here))) in
            record {
              below = n.below;
              target = u;
              here = ground (arith, same);
              named = ap (λ (k : Row). L.key_equal_id x.columns.referring_user_id k.id) c ∙ n.named;
            }
        | no differ ↦ record {
          below = n.below;
          target = n.target;
          here = ground (arith, differ, n.here);
          named = n.named;
        }
      ]

  -- A new object has no relations yet.
  pub new_cell-IsLinked :
      (row : Row)
      → IsLinked L (record {
        next = h.next + 1;
        cell = set_cell h.cell h.next (record { columns = row; r = none });
      })
  new_cell-IsLinked row = record {
    linked = λ a x r q ea er eq. elim (nat_eq.dec h.next a) [
      | yes same ↦
          let e : record { columns = row; r = none } ≡ x =
            some-injective _ x (ground (arith, ea, same)) in
          absurd (none-ne-some r (ap (λ (y : User). y.r) e ∙ er))
      | no differ ↦
          let n = good.linked a x r q (ground (arith, ea, differ)) er eq in
          record {
            below = omega (arith, n.below);
            target = n.target;
            here = ground (arith, n.below, n.here);
            named = n.named;
          }
    ];
  }
