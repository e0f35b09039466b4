-- ===== src/Models/Where.antt =====
-- models/users.go: the generated `where` helpers, one group of operations for the plain columns and
-- one for the nullable columns. Their instances for the columns are in UserWhere.
use users_api.Base.{String, Bool, true, false, List, map}
use users_api.Models.User.{Column, Value, text}

-- The operators of `qmhelper`.
pub data Operator : Type 0 where
  eq neq lt lte gt gte : Operator

pub data Pattern : Type 0 where
  like not_like ilike not_ilike : Pattern

-- `UserRels`
pub data Relation : Type 0 where
  referring_user referring_user_users : Relation

-- The query modifiers of `qm` and `qmhelper` that the code makes, with their arguments.
pub data QueryMod : Type 0 where
  -- qmhelper.Where
  where_compare : Column → Operator → Value → QueryMod
  -- qmhelper.WhereNullEQ; the flag says that it is negated
  where_null_eq : Column → Bool → Value → QueryMod
  where_is_null : Column → QueryMod
  where_is_not_null : Column → QueryMod
  where_like : Column → Pattern → Value → QueryMod
  where_in : Column → List Value → QueryMod
  where_not_in : Column → List Value → QueryMod
  -- qm.From, qm.Load, qm.OrderBy
  from_table : String → QueryMod
  load : Relation → QueryMod
  order_by : String → QueryMod

-- `whereHelperstring`, `whereHelpernull_String` and the others: the field, and how an argument of
-- its type is passed on.
pub record Helper (A : Type 0) : Type 0 where
  pub field : Column
  pub as_value : A → Value

module _ {A : Type 0} where
  -- `EQ` to `GTE` of `whereHelperstring`, `whereHelperbool` and `whereHelpertime_Time`; `LT` to
  -- `GTE` of the nullable helpers.
  unfoldable pub where_op : Operator → Helper A → A → QueryMod
  where_op op w x = where_compare w.field op (w.as_value x)

  -- `EQ` and `NEQ` of `whereHelpernull_String`, `whereHelpernull_Time`, `whereHelpernull_Bytes`.
  unfoldable pub where_eq_null : Helper A → A → QueryMod
  where_eq_null w x = where_null_eq w.field false (w.as_value x)

  unfoldable pub where_neq_null : Helper A → A → QueryMod
  where_neq_null w x = where_null_eq w.field true (w.as_value x)

  unfoldable pub is_null : Helper A → QueryMod
  is_null w = where_is_null w.field

  unfoldable pub is_not_null : Helper A → QueryMod
  is_not_null w = where_is_not_null w.field

  -- `LIKE`, `NLIKE`, `ILIKE`, `NILIKE` of the two string helpers.
  unfoldable pub where_pattern : Pattern → Helper A → A → QueryMod
  where_pattern p w x = where_like w.field p (w.as_value x)

  -- `IN` and `NIN` of the two string helpers.
  unfoldable pub where_one_of : Helper A → List String → QueryMod
  where_one_of w slice = where_in w.field (map text slice)

  unfoldable pub where_none_of : Helper A → List String → QueryMod
  where_none_of w slice = where_not_in w.field (map text slice)
