-- ===== src/Models/Objects.antt =====
-- models/users.go: reads and writes of one object through its pointer.
use users_api.Base.{Option, some, ◌≡◌, ◌≢◌, refl, arith, nat_eq}
use users_api.Go.Result.{ok}
use users_api.Models.User.{User, UserPtr}
use users_api.Models.Sql.{Sql}
use users_api.Models.World.{World, with_heap, get_user, set_cell}

pub set_cell_here :
    (cell : UserPtr → Option User) (p : UserPtr) (u : User) → set_cell cell p u p ≡ some u
set_cell_here cell p u = ground arith

pub set_cell_there :
    (cell : UserPtr → Option User) (p q : UserPtr) (u : User) → p ≢ q → set_cell cell p u q ≡ cell q
set_cell_there cell p q u differ = ground arith

module _ {S : Sql} where
  pub get_user_lem :
      (w : World S) (p : UserPtr) (u : User) → w.heap.cell p ≡ some u → get_user p w ≡ (ok u, w)
  unfolding get_user
  get_user_lem w p u here = rw (here, get_user) refl

  -- The world after an object was written.
  abbrev pub written : UserPtr → User → World S → World S
  written p u w = with_heap (record w.heap { cell = set_cell w.heap.cell p u }) w

  pub get_written :
      (w : World S) (p : UserPtr) (u : User) → get_user p (written p u w) ≡ (ok u, written p u w)
  get_written w p u = get_user_lem (written p u w) p u (set_cell_here w.heap.cell p u)
