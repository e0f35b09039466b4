-- ===== src/Models/Related/Each.antt =====
-- models/users.go: how all objects of a heap change while some are written, and which do not.
use mathlib.Core.Path.{subst}
use mathlib.Core.Option.{some-injective}
use users_api.Base.{
  some, List, [], ◌∷◌, ◌≡◌, ◌≢◌, sym, ap, ◌∙◌, All, nat_eq, inl, inr, ◌⊎◌, true, contains, ==_refl,
  arith,
}
use users_api.Go.Exec.{Exec}
use users_api.Models.User.{UserPtr, User}
use users_api.Models.Sql.{Sql}
use users_api.Models.World.{Heap, World}
use users_api.Models.Related.Links.{Sets}

-- An object behind a pointer.
abbrev pub Held : Heap → UserPtr → Type 0
Held h p = (u : User) × (h.cell p ≡ some u)

module _ (R : User → User → Type 0) where
  -- Each object of the former heap is one of the later, and has changed by the relation.
  abbrev pub Each : Heap → Heap → Type 0
  Each h h' =
      (p : UserPtr) (u : User) → h.cell p ≡ some u → (u' : User) × (h'.cell p ≡ some u') × R u u'

  pub All-Held-Each :
      (h h' : Heap) (ps : List UserPtr) → Each h h' → All (Held h) ps → All (Held h') ps
  All-Held-Each h h' [] g a = tt
  All-Held-Each h h' (p ∷ ps) g ((u, e), rest) =
      let (u', e', r) = g p u e in ((u', e'), All-Held-Each h h' ps g rest)

  module _ (R-refl : (u : User) → R u u) where
    pub Each-refl : (h : Heap) → Each h h
    Each-refl h p u e = (u, e, R-refl u)

    pub Sets-Each :
        {S : Sql} (m : Exec (World S) (Unit {0})) (w : World S) (p : UserPtr) (u u' : User)
        → w.heap.cell p ≡ some u
        → (s : Sets m w p u') → R u u'
        → Each w.heap s.after.heap
    Sets-Each m w p u u' here s changed q x e = elim (nat_eq.dec p q) [
      | yes same ↦
          let ux : u ≡ x = some-injective u x (sym here ∙ (ap w.heap.cell same ∙ e)) in
          (u', ap s.after.heap.cell (sym same) ∙ s.here, subst (λ (y : User). R y u') ux changed)
      | no differ ↦ (x, s.others q differ ∙ e, R-refl x)
    ]

  module _ (R-trans : (u v x : User) → R u v → R v x → R u x) where
    pub Each-trans : (h i j : Heap) → Each h i → Each i j → Each h j
    Each-trans h i j a b p u e =
        let (v, ev, x) = a p u e in let (y, ey, z) = b p v ev in (y, ey, R-trans u v y x z)

-- Only the objects behind the pointers may have changed.
abbrev pub Framed : List UserPtr → Heap → Heap → Type 0
Framed ps h h' = (q : UserPtr) → All (λ p. p ≢ q) ps → h'.cell q ≡ h.cell q

pub Sets-Framed :
    {S : Sql} (m : Exec (World S) (Unit {0})) (w : World S) (p : UserPtr) (u : User)
    → (s : Sets m w p u) → Framed (p ∷ []) w.heap s.after.heap
Sets-Framed m w p u s q a = s.others q a.0

pub Framed-trans :
    (p : UserPtr) (ps : List UserPtr) (h i j : Heap)
    → Framed (p ∷ []) h i
    → Framed ps i j
    → Framed (p ∷ ps) h j
Framed-trans p ps h i j a b q (differ, rest) = b q rest ∙ a q (differ, tt)

-- A pointer is among others, or differs from them all.
pub contains-or-differs :
    (ps : List UserPtr) (q : UserPtr) → (contains ps q ≡ true) ⊎ All (λ p. p ≢ q) ps
contains-or-differs [] q = inr tt
contains-or-differs (p ∷ ps) q = elim (contains-or-differs ps q) [
  | inl among ↦ inl (ground arith)
  | inr differ ↦ elim (nat_eq.dec p q) [
    | yes same ↦ inl (rw same (ground (arith, ==_refl q)))
    | no other ↦ inr (other, differ)
  ]
]
