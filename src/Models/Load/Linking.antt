-- ===== src/Models/Load/Linking.antt =====
-- models/users.go: the loops of `LoadReferringUser` that collect the keys and that link.
use mathlib.Core.Path.{subst}
use mathlib.Core.Option.{some-injective}
use users_api.Base.{
  ℕ, ◌≤◌, ◌<◌, String, Bool, true, false, some, List, [], ◌∷◌, ◌≡◌, refl, sym, ap, ◌∙◌, arith, All,
  if◌then◌else◌,
}
use users_api.Go.Exec.{for_each}
use users_api.Go.Null.{Null, null_eq}
use users_api.Models.User.{UserPtr, User}
use users_api.Models.World.{World, get_user}
use users_api.Models.Env.{Env}
use users_api.Models.Load.{
  ensure_r, modify_r, set_referring, add_referred, link, link_first, refers_to,
  collect_foreign_keys,
}
use users_api.Models.Load.Linked.{Named, IsLinked}
use users_api.Models.Load.Keeps.{
  Keeps, pure-Keeps, bind-Keeps, get_user-Keeps, ensure_r-Keeps, modify_r-Keeps,
}

-- The pointers of a list are below a bound.
abbrev pub Below : ℕ → List UserPtr → Type 0
Below n = All (λ p. p < n)

pub Below-grows : (m n : ℕ) (ps : List UserPtr) → m ≤ n → Below m ps → Below n ps
Below-grows m n [] h g = tt
Below-grows m n (p ∷ ps) h g = (omega (arith, h, g.0), Below-grows m n ps h g.1)

module _ (E : Env) where
  open E use {sql as S, library as L}

  pub link-Keeps :
      (w : World S)
      → IsLinked L w.heap
      → (local foreign : UserPtr)
      → ((u : User) → w.heap.cell local ≡ some u → Named L w.heap u foreign)
      → Keeps L w (link E local foreign w) (λ _ _. Unit)
  unfolding link
  link-Keeps w good local foreign named =
      bind-Keeps L (modify_r local (set_referring (some foreign))) _
        (modify_r-Keeps L w good local (set_referring (some foreign)) (λ u r q here loaded e.
          subst (Named L w.heap u) (some-injective foreign q e) (named u here)))
        λ _ v goodv _ _.
          bind-Keeps L (ensure_r foreign) _ (ensure_r-Keeps L v goodv foreign) λ _ x goodx _ _.
            modify_r-Keeps L x goodx foreign (add_referred local)
              (λ u r q here loaded e. goodx.linked foreign u r q here loaded e)

  -- The test of the inner loop, if it holds, says that the key names the object.
  abbrev Says : World S → UserPtr → UserPtr → Bool → Type 0
  Says w local foreign b =
      b ≡ true
      → (u : User) → w.heap.cell local ≡ some u
      → (f : User) × (w.heap.cell foreign ≡ some f)
        × (L.key_equal_id u.columns.referring_user_id f.columns.id ≡ true)

  refers_to-Keeps :
      (w : World S)
      → IsLinked L w.heap
      → (local foreign : UserPtr)
      → Keeps L w (refers_to E local foreign w) (λ b v. (v ≡ w) × Says w local foreign b)
  unfolding refers_to
  refers_to-Keeps w good local foreign =
      bind-Keeps L (get_user local) _ (get_user-Keeps L w good local) λ l v goodv _ (same, here).
        bind-Keeps L (get_user foreign) _ (get_user-Keeps L v goodv foreign)
          λ f x goodx _ (same', here').
            pure-Keeps L (L.key_equal_id l.columns.referring_user_id f.columns.id) goodx (
              same' ∙ same,
              λ holds u eu. (
                f,
                ap (λ (y : World S). y.heap.cell foreign) (sym same) ∙ here',
                ap (λ (y : User). L.key_equal_id y.columns.referring_user_id f.columns.id)
                      (some-injective u l (sym eu ∙ here))
                    ∙ holds,
              ),
            )

  branch :
      (v : World S) (b : Bool) (local foreign : UserPtr) (rest : List UserPtr)
      → (b ≡ true → Keeps L v (link E local foreign v) (λ _ _. Unit))
      → Keeps L v (link_first E local rest v) (λ _ _. Unit)
      → Keeps L v ((if b then link E local foreign else link_first E local rest) v) (λ _ _. Unit)
  branch v true local foreign rest h k = h refl
  branch v false local foreign rest h k = k

  link_first-Keeps :
      (w : World S)
      → IsLinked L w.heap
      → (local : UserPtr) (found : List UserPtr) → Below w.heap.next found
      → Keeps L w (link_first E local found w) (λ _ _. Unit)
  unfolding link_first
  link_first-Keeps w good local [] g = pure-Keeps L tt good tt
  link_first-Keeps w good local (foreign ∷ rest) g =
      bind-Keeps L (refers_to E local foreign) _ (refers_to-Keeps w good local foreign)
        λ b v goodv grows (same, says).
          branch v b local foreign rest
            (λ holds. link-Keeps v goodv local foreign λ u eu.
              let at = λ (q : UserPtr). ap (λ (y : World S). y.heap.cell q) same in
              let (f, here, named) = says holds u (sym (at local) ∙ eu) in
              record {
                below = omega (arith, grows, g.0);
                target = f;
                here = at foreign ∙ here;
                named = named;
              })
            (link_first-Keeps v goodv local rest (Below-grows _ _ rest grows g.1))

  pub link_all-Keeps :
      (w : World S)
      → IsLinked L w.heap
      → (found ps : List UserPtr) → Below w.heap.next found
      → Keeps L w (for_each (λ local. link_first E local found) ps w) (λ _ _. Unit)
  unfolding for_each
  link_all-Keeps w good found [] g = pure-Keeps L tt good tt
  link_all-Keeps w good found (p ∷ ps) g =
      bind-Keeps L (link_first E p found) _ (link_first-Keeps w good p found g)
        λ _ v goodv grows _. link_all-Keeps v goodv found ps (Below-grows _ _ found grows g)

  pub collect_foreign_keys-Keeps :
      (w : World S)
      → IsLinked L w.heap
      → (ps : List UserPtr) (keys : List (Null String))
      → Keeps L w (collect_foreign_keys E ps keys w) (λ _ _. Unit)
  unfolding collect_foreign_keys
  collect_foreign_keys-Keeps w good [] keys = pure-Keeps L keys good tt
  collect_foreign_keys-Keeps w good (p ∷ ps) keys =
      bind-Keeps L (ensure_r p) _ (ensure_r-Keeps L w good p) λ _ v goodv _ _.
        bind-Keeps L (get_user p) _ (get_user-Keeps L v goodv p)
          λ u z goodz _ _. collect_foreign_keys-Keeps z goodz ps _
