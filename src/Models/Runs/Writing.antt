-- ===== src/Models/Runs/Writing.antt =====
-- The rules for the steps that write an object through its pointer, or make a new one.
use mathlib.Core.Option.{some-injective}
use users_api.Base.{sym, ap, ◌+◌, ◌<◌, none, some, ◌≡◌, refl, ◌∙◌, ◌≢◌, arith, nat_eq}
use users_api.Models.User.{Row, UserPtr, UserR, User}
use users_api.Models.Sql.{Sql}
use users_api.Models.World.{Heap, World, new_user, put_user, set_cell}
use users_api.Models.Runs.{IsWf, Extends, Runs, Ends, HasColumns, HasR}

-- A write that leaves the object a relations struct, with a good pointer if any.
pub record Write (h : Heap) (p : UserPtr) (u : User) : Type 0 where
  pub below : p < h.next
  pub old : User
  pub here : h.cell p ≡ some old
  pub relations : UserR
  pub loaded : u.r ≡ some relations
  pub closed : (q : UserPtr) → relations.referring_user ≡ some q → q < h.next

module _ (h : Heap) (wf : IsWf h) (p : UserPtr) (u : User) (t : Write h p u) where
  put_allocated : (q : UserPtr) → q < h.next → (x : User) × (set_cell h.cell p u q ≡ some x)
  put_allocated q k = elim (nat_eq.dec p q) [
    | yes same ↦ (u, ground arith)
    | no differ ↦ let (x, ex) = wf.allocated q k in (x, ground arith)
  ]

  put_closed :
      (a : UserPtr) (x : User) (s : UserR) (q : UserPtr)
      → set_cell h.cell p u a ≡ some x
      → x.r ≡ some s
      → s.referring_user ≡ some q
      → q < h.next
  put_closed a x s q ea er eq = elim (nat_eq.dec p a) [
    | yes same ↦ ground (arith, t.closed q)
    | no differ ↦ ground (arith, wf.closed a x s q)
  ]

  put_columns :
      u.columns ≡ t.old.columns
      → (a : UserPtr) (x : User) → a < h.next
      → h.cell a ≡ some x
      → (y : User) × (set_cell h.cell p u a ≡ some y)
        × (y.columns ≡ x.columns)
        × (x.r ≢ none → y.r ≢ none)
  put_columns kept a x k ea = elim (nat_eq.dec p a) [
    | yes same ↦ (
      u,
      ground arith,
      kept
          ∙ ap (λ (y : User). y.columns)
              (some-injective t.old x (sym t.here ∙ ap h.cell same ∙ ea)),
      λ _ z. cc (t.loaded),
    )
    | no differ ↦ (x, ground arith, refl, λ n. n)
  ]

  put-IsWf : IsWf (record h { cell = set_cell h.cell p u })
  put-IsWf = record { allocated = put_allocated; closed = put_closed }

  put-Extends : u.columns ≡ t.old.columns → Extends h (record h { cell = set_cell h.cell p u })
  put-Extends kept = record { grows = omega arith; columns = put_columns kept }

module _ {S : Sql} (w : World S) where
  pub put_user-Runs :
      {F : Type 0}
      → IsWf w.heap
      → (p : UserPtr) (u : User) (t : Write w.heap p u) → u.columns ≡ t.old.columns
      → Runs F w (put_user p u w) (λ _ v. HasR v.heap p)
  unfolding put_user
  put_user-Runs wf p u t kept = record {
    wf = put-IsWf w.heap wf p u t;
    extends = put-Extends w.heap wf p u t kept;
    db = refl;
    cache = refl;
    result = record {
      below = t.below;
      user = u;
      relations = t.relations;
      here = ground arith;
      loaded = t.loaded;
    };
  }

  -- A write of other columns: the heap stays well formed, and the object is the new one.
  pub put_user-Ends :
      {F : Type 0}
      → IsWf w.heap
      → (p : UserPtr) (u : User) → Write w.heap p u
      → Ends F w (put_user p u w) (λ _ v. HasR v.heap p × HasColumns v.heap p u.columns)
  unfolding put_user
  put_user-Ends wf p u t = record {
    wf = put-IsWf w.heap wf p u t;
    db = refl;
    cache = refl;
    result = (
      record {
        below = t.below;
        user = u;
        relations = t.relations;
        here = ground arith;
        loaded = t.loaded;
      },
      record { below = t.below; user = u; here = ground arith; same = refl },
    );
  }

module _ (h : Heap) (wf : IsWf h) (row : Row) where
  abbrev fresh : User
  fresh = record { columns = row; r = none }

  abbrev grown : Heap
  grown = record { next = h.next + 1; cell = set_cell h.cell h.next fresh }

  new_allocated :
      (q : UserPtr) → q < h.next + 1 → (x : User) × (set_cell h.cell h.next fresh q ≡ some x)
  new_allocated q k = elim (nat_eq.dec h.next q) [
    | yes same ↦ (fresh, ground arith)
    | no differ ↦ let (x, ex) = wf.allocated q (omega arith) in (x, ground arith)
  ]

  new_closed :
      (a : UserPtr) (x : User) (s : UserR) (q : UserPtr)
      → set_cell h.cell h.next fresh a ≡ some x
      → x.r ≡ some s
      → s.referring_user ≡ some q
      → q < h.next + 1
  new_closed a x s q ea er eq = elim (nat_eq.dec h.next a) [
    | yes same ↦ ground arith
    | no differ ↦ ground (arith, wf.closed a x s q)
  ]

  new_columns :
      (a : UserPtr) (x : User)
      → a < h.next
      → h.cell a ≡ some x
      → (y : User) × (set_cell h.cell h.next fresh a ≡ some y)
        × (y.columns ≡ x.columns)
        × (x.r ≢ none → y.r ≢ none)
  new_columns a x k ea = elim (nat_eq.dec h.next a) [
    | yes same ↦ absurd (omega arith)
    | no differ ↦ (x, ground arith, refl, λ n. n)
  ]

  new-IsWf : IsWf grown
  new-IsWf = record { allocated = new_allocated; closed = new_closed }

  new-Extends : Extends h grown
  new-Extends = record { grows = omega arith; columns = new_columns }

module _ {S : Sql} (w : World S) where
  pub new_user-Runs :
      {F : Type 0}
      → IsWf w.heap
      → (row : Row)
      → Runs F w (new_user (record { columns = row; r = none }) w) (λ p v. HasColumns v.heap p row)
  unfolding new_user
  new_user-Runs wf row = record {
    wf = new-IsWf w.heap wf row;
    extends = new-Extends w.heap wf row;
    db = refl;
    cache = refl;
    result = record {
      below = omega arith;
      user = record { columns = row; r = none };
      here = ground arith;
      same = refl;
    };
  }
