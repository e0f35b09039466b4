-- ===== src/Models/Env.antt =====
-- What the generated code runs in: the database, the third-party operations, the registered hooks
-- and the context of the call.
use users_api.Base.{ℕ, Bool, List}
use users_api.Go.Null.{Time}
use users_api.Go.Library.{Library}
use users_api.Models.User.{Column, Row}
use users_api.Models.Sql.{Sql}
use users_api.Models.World.{Ctx}
use users_api.Models.Hooks.{Hooks}

-- boil.Columns
pub record Columns : Type 0 where
  pub kind : ℕ
  pub cols : List Column

-- The operations of the packages `boil` and `strmangle` on sets of columns.
pub record Boil : Type 0 where
  pub infer : Columns
  pub whitelist : List Column → Columns
  pub is_whitelist : Columns → Bool
  pub update_column_set : Columns → List Column → List Column → List Column
  pub set_complement : List Column → List Column → List Column
  pub set_intersect : List Column → List Column → List Column
  -- The columns to insert and those to return, from all columns, those with a default, those without,
  -- and those with a default whose field is not zero.
  pub insert_column_set :
      Columns → List Column → List Column → List Column → List Column → List Column × List Column
  -- queries.NonZeroDefaultSet
  pub non_zero_default_set : List Column → Row → List Column

pub record Env : Type 1 where
  pub sql : Sql
  pub library : Library
  pub boil : Boil
  pub ctx : Ctx
  pub hooks : Hooks sql
  -- time.Now()
  pub now : Time
