-- ===== src/Models/Related/Later.antt =====
-- models/users.go: how objects change while a relationship is added to: they keep their ids, and
-- what was linked stays linked.
use users_api.Base.{String, Option, none, some, List, ◌++◌, ◌≡◌, refl, ◌∙◌, nat_eq}
use users_api.Go.Exec.{Exec}
use users_api.Go.Null.{Null}
use users_api.Models.User.{UserPtr, UserR, User}
use users_api.Models.Sql.{Sql}
use users_api.Models.World.{Heap, World}
use users_api.Models.Related.Links.{relations, Sets}
use users_api.Models.Related.Each.{Each, Each-refl, Each-trans, Sets-Each}

abbrev pub PointsAt : UserPtr → Option UserR → Type 0
PointsAt o none = ⊥
PointsAt o (some r) = r.referring_user ≡ some o

-- The list of an object ends in the given pointers.
abbrev pub EndsIn : List UserPtr → Option UserR → Type 0
EndsIn tail r = (before : List UserPtr) × ((relations r).referring_user_users ≡ before ++ tail)

module _ (key : Null String) (o : UserPtr) (tail : List UserPtr) where
  -- An object of the former heap, later: it has its id, and keeps the key and the pointer.
  pub record Later (u u' : User) : Type 0 where
    pub id : u'.columns.id ≡ u.columns.id
    pub keyed : u.columns.referring_user_id ≡ key → u'.columns.referring_user_id ≡ key
    pub points : PointsAt o u.r → PointsAt o u'.r
    pub ends : EndsIn tail u.r → EndsIn tail u'.r

  Later-trans : (u v x : User) → Later u v → Later v x → Later u x
  Later-trans u v x a b = record {
    id = b.id ∙ a.id;
    keyed = λ e. b.keyed (a.keyed e);
    points = λ e. b.points (a.points e);
    ends = λ e. b.ends (a.ends e);
  }

  Later-refl : (u : User) → Later u u
  Later-refl u = record { id = refl; keyed = λ x. x; points = λ x. x; ends = λ x. x }

  abbrev pub Grown : Heap → Heap → Type 0
  Grown = Each Later

  pub Grown-refl : (h : Heap) → Grown h h
  Grown-refl = Each-refl Later Later-refl

  pub Grown-trans : (h i j : Heap) → Grown h i → Grown i j → Grown h j
  Grown-trans = Each-trans Later Later-trans

  pub Sets-Grown :
      {S : Sql} (m : Exec (World S) (Unit {0})) (w : World S) (p : UserPtr) (u u' : User)
      → w.heap.cell p ≡ some u
      → (s : Sets m w p u') → Later u u'
      → Grown w.heap s.after.heap
  Sets-Grown = Sets-Each Later Later-refl
