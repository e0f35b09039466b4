-- ===== src/Models/Related/Detach.antt =====
-- models/users.go: the loop of `RemoveReferringUserUsers` that takes an object out of a list.
use Prim.Native.Nat.{◌-◌}
use mathlib.Core.List.{append_assoc, append-nil, Perm, perm_middle}
use mathlib.Core.Path.{subst}
use mathlib.Core.Option.{some-injective, none-ne-some, some-ne-none}
use mathlib.Core.List.Perm
use users_api.Base.{
  ℕ, suc, ◌+◌, ◌<◌, true, false, none, some, List, [], ◌∷◌, ◌++◌, length, ◌≡◌, refl, sym, ap, ◌∙◌,
  ◌⊎◌, inl, inr, arith, Bool-cases, Option-cases, ◌==◌, ==→≡, nat_eq, if◌then◌else◌,
}
use users_api.Base.Arrays.{ltb, get_elem?, set, take}
use users_api.Models.User.{UserPtr}
use users_api.Models.Related.{swap_remove, index_of, remove_at, detach}

module _ {A : Type 0} where
  length-append : (xs ys : List A) → length (xs ++ ys) ≡ length xs + length ys
  length-append [] ys = omega arith
  length-append (x ∷ xs) ys = let h = length-append xs ys in omega (arith, h)

  -- Every list is empty or ends in an entry.
  ends_in : (xs : List A) → (xs ≡ []) ⊎ ((ys : List A) × (y : A) × (xs ≡ ys ++ y ∷ []))
  ends_in [] = inl refl
  ends_in (x ∷ xs) = elim (ends_in xs) [
    | inl e ↦ inr ([], x, ap (λ (l : List A). x ∷ l) e)
    | inr (ys, y, e) ↦ inr (x ∷ ys, y, ap (λ (l : List A). x ∷ l) e)
  ]

  get_elem?-last : (xs : List A) (q : A) → get_elem? (xs ++ q ∷ []) (length xs) ≡ some q
  get_elem?-last [] q = refl
  get_elem?-last (x ∷ xs) q = get_elem?-last xs q

  set-append : (xs ys : List A) (p q : A) → set (xs ++ p ∷ ys) (length xs) q ≡ xs ++ q ∷ ys
  set-append [] ys p q = refl
  set-append (x ∷ xs) ys p q = ap (λ (l : List A). x ∷ l) (set-append xs ys p q)

  take-append : (xs ys : List A) → take (length xs) (xs ++ ys) ≡ xs
  take-append [] ys = refl
  take-append (x ∷ xs) ys = ap (λ (l : List A). x ∷ l) (take-append xs ys)

ltb-false : (a : ℕ) → ltb a a ≡ false
ltb-false a = ground arith

ltb-true : (a b : ℕ) → a < b → ltb a b ≡ true
ltb-true a b h = ground arith

swap_remove-last : (xs : List UserPtr) (p : UserPtr) → swap_remove (length xs) (xs ++ p ∷ []) ≡ xs
unfolding swap_remove
swap_remove-last xs p =
    let size : length (xs ++ p ∷ []) - 1 ≡ length xs = omega (arith, length-append xs (p ∷ [])) in
    rw (size, ltb-false (length xs)) (ground (arith, take-append xs (p ∷ [])))

swap_remove-middle :
    (xs zs : List UserPtr) (p q : UserPtr)
    → swap_remove (length xs) (xs ++ p ∷ (zs ++ q ∷ [])) ≡ xs ++ q ∷ zs
unfolding swap_remove
swap_remove-middle xs zs p q =
    let front : List UserPtr = xs ++ p ∷ zs in
    let after : List UserPtr = xs ++ q ∷ zs in
    let whole : xs ++ p ∷ (zs ++ q ∷ []) ≡ front ++ q ∷ [] =
      sym (append_assoc xs (p ∷ zs) (q ∷ [])) in
    let size = length-append front (q ∷ []) in
    let front_size = length-append xs (p ∷ zs) in
    let after_size = length-append xs (q ∷ zs) in
    let moved : set (xs ++ p ∷ (zs ++ q ∷ [])) (length xs) q ≡ after ++ q ∷ [] =
      set-append xs (zs ++ q ∷ []) p q ∙ sym (append_assoc xs (q ∷ zs) (q ∷ [])) in
    let same : length front ≡ length after = omega (arith, front_size, after_size) in
    let cut : take (length front) (after ++ q ∷ []) ≡ after =
      ap (λ n. take n (after ++ q ∷ [])) same ∙ take-append after (q ∷ []) in
    let less : length (front ++ q ∷ []) - 1 ≡ length front = omega (arith, size) in
    rw
      (
        whole,
        less,
        ltb-true 1 (length (front ++ q ∷ [])) (omega (arith, size, front_size)),
        ltb-true (length xs) (length front) (omega (arith, front_size)),
        get_elem?-last front q,
        moved,
      )
      cut

pub swap_remove-Perm :
    (xs : List UserPtr) (p : UserPtr) (ys : List UserPtr)
    → Perm (swap_remove (length xs) (xs ++ p ∷ ys)) (xs ++ ys)
swap_remove-Perm xs p ys = elim (ends_in ys) [
  | inl e ↦ rw (e, swap_remove-last xs p, append-nil xs) (Perm.refl xs)
  | inr (zs, q, e) ↦
      rw (e, swap_remove-middle xs zs p q)
        (Perm.append_left xs (
          subst (λ (l : List UserPtr). Perm (q ∷ l) (zs ++ q ∷ [])) (append-nil zs)
            (Perm.symm (perm_middle zs []))))
]

-- The collection without the first entry that is the pointer.
unfoldable pub remove_first : UserPtr → List UserPtr → List UserPtr
remove_first p [] = []
remove_first p (q ∷ qs) = if p == q then qs else q ∷ remove_first p qs

-- What an index found says of a list.
record Found (p : UserPtr) (ps : List UserPtr) (i : ℕ) : Type 0 where
  before : List UserPtr
  after : List UserPtr
  split : ps ≡ before ++ p ∷ after
  index : i ≡ length before
  rest : remove_first p ps ≡ before ++ after

found : (p : UserPtr) (ps : List UserPtr) (i : ℕ) → index_of p ps ≡ some i → Found p ps i
unfolding index_of remove_first
found p [] i e = cc
found p (q ∷ qs) i e = elim (Bool-cases (p == q)) [
  | inl same ↦ record {
    before = [];
    after = qs;
    split = ap (λ x. x ∷ qs) (sym (==→≡ p q same));
    index = sym (some-injective 0 i (rw same at e));
    rest = rw same refl;
  }
  | inr differ ↦ elim (Option-cases (index_of p qs)) [
    | inl none_left ↦ absurd (none-ne-some i (rw (differ, none_left) at e))
    | inr (j, here) ↦
        let f = found p qs j here in
        record {
          before = q ∷ f.before;
          after = f.after;
          split = ap (λ (l : List UserPtr). q ∷ l) f.split;
          index = omega (arith, f.index, some-injective (suc j) i (rw (differ, here) at e));
          rest = rw differ (ap (λ (l : List UserPtr). q ∷ l) f.rest);
        }
  ]
]

absent : (p : UserPtr) (ps : List UserPtr) → index_of p ps ≡ none → remove_first p ps ≡ ps
unfolding index_of remove_first
absent p [] e = refl
absent p (q ∷ qs) e = elim (Bool-cases (p == q)) [
  | inl same ↦ absurd (some-ne-none 0 (rw same at e))
  | inr differ ↦ elim (Option-cases (index_of p qs)) [
    | inl none_left ↦ rw differ (ap (λ (l : List UserPtr). q ∷ l) (absent p qs none_left))
    | inr (j, here) ↦ absurd (some-ne-none (suc j) (rw (differ, here) at e))
  ]
]

-- `detach` takes the first entry that is the pointer out of the list, in no particular order of the
-- rest, as the comment says; without such an entry the list is unchanged.
pub detach-Perm : (p : UserPtr) (ps : List UserPtr) → Perm (detach p ps) (remove_first p ps)
unfolding detach
detach-Perm p ps = elim (Option-cases (index_of p ps)) [
  | inl none_left ↦ rw (none_left, absent p ps none_left) (Perm.refl ps)
  | inr (i, here) ↦
      let f = found p ps i here in
      let moved : detach p ps ≡ swap_remove (length f.before) (f.before ++ p ∷ f.after) =
        ap (λ o. remove_at o ps) here
        ∙ (ap (λ n. swap_remove n ps) f.index ∙ ap (swap_remove (length f.before)) f.split) in
      rw (moved, f.rest) (swap_remove-Perm f.before p f.after)
]
