-- ===== src/Models/World.antt =====
-- The state of the process that the generated code reads and writes: the `User` objects, the
-- database, and the caches of statements; and the environment that it runs in.
use users_api.Base.{String, Bool, Option, none, some, List, ◌+◌, ◌==◌, nat_eq, if◌then◌else◌}
use users_api.Go.Result.{ok, panic, Attempt, attempt}
use users_api.Go.Exec.{Exec, pure, ◌>>=◌}
use users_api.Models.User.{Column, UserPtr, User}
use users_api.Models.Sql.{Sql, Conn}

pub record Heap : Type 0 where
  pub next : UserPtr
  pub cell : UserPtr → Option User

abbrev pub set_cell : (UserPtr → Option User) → UserPtr → User → UserPtr → Option User
set_cell cell p u q = if p == q then some u else cell q

-- The columns of an `updateCache` entry; its statement is determined by them.
pub record UpdateCache : Type 0 where
  pub columns : List Column

-- The columns of an `insertCache` entry, and those that the statement returns; `Insert`'s text is
-- determined by them, and `Upsert` keeps the text that it built.
pub record InsertCache : Type 0 where
  pub columns : List Column
  pub returned : List Column

pub record UpsertCache : Type 0 where
  pub query : String
  pub columns : List Column
  pub returned : List Column

pub record World (S : Sql) : Type 0 where
  pub heap : Heap
  pub db : S.Db
  pub update_cache : List (String × UpdateCache)
  pub insert_cache : List (String × InsertCache)
  pub upsert_cache : List (String × UpsertCache)

module _ {S : Sql} where
  abbrev pub with_heap : Heap → World S → World S
  with_heap h w = record w { heap = h }

  abbrev pub with_db : S.Db → World S → World S
  with_db d w = record w { db = d }

  -- `&User{...}`
  unfoldable pub new_user : User → Exec (World S) UserPtr
  new_user u w = (
    ok w.heap.next,
    with_heap (record { next = w.heap.next + 1; cell = set_cell w.heap.cell w.heap.next u }) w,
  )

  -- Reads through a pointer. No pointer of the program dangles; a panic stands for one.
  unfoldable pub get_user : UserPtr → Exec (World S) User
  get_user p w = elim (w.heap.cell p) [ some u ↦ (ok u, w) | none ↦ (panic "nil pointer", w) ]

  -- A pointer that may be nil, behind its test for nil.
  unfoldable pub get_optional : Option UserPtr → Exec (World S) (Option User)
  unfolding get_user
  get_optional none = pure none
  get_optional (some p) = do u ← get_user p; pure (some u)

  unfoldable pub put_user : UserPtr → User → Exec (World S) (Unit {0})
  put_user p u w = (ok tt, with_heap (record w.heap { cell = set_cell w.heap.cell p u }) w)

  -- A read of the database.
  unfoldable pub read_db : {A : Type 0} → (S.Db → Attempt A) → Exec (World S) A
  read_db f w = (attempt (f w.db), w)

  -- A call that may change the database.
  unfoldable pub change_db : {A : Type 0} → (S.Db → Attempt A × S.Db) → Exec (World S) A
  change_db f w = let (r, d) = f w.db in (attempt r, with_db d w)

-- What a `context.Context` tells the generated code.
pub record Ctx : Type 0 where
  pub hooks_skipped : Bool
  pub timestamps_skipped : Bool

-- `UserHook`; its context is in the closure.
abbrev pub UserHook : Sql → Type 0
UserHook S = Conn S.Tx → UserPtr → Exec (World S) (Unit {0})
