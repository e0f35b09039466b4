-- ===== src/Controllers/Confirmed.antt =====
-- internal/controllers/user_controller.go: which of several users of one address `getUserByEth` finds.
use users_api.Base.{◌≢◌, true, some, ◌≡◌, inl, refl}
use users_api.Go.Error.{err_no_rows}
use users_api.Go.Result.{failed}
use users_api.Models.Runs.Reasons.{OneFails}
use users_api.Go.Null.{Address}
use users_api.Models.User.{Row, column_value}
use users_api.Models.Where.{where_eq_null}
use users_api.Models.Sql.{reader}
use users_api.Models.World.{World}
use users_api.Models.Select.{users}
use users_api.Models.Laws.{IsLawful, PlainQuery, SameNull, In}
use users_api.Models.Runs.{IsWf, Runs, HasColumns, reason-Runs}
use users_api.Models.Runs.Steps.{weaken-Runs}
use users_api.Models.Runs.Related.{NoSelectHooks}
use users_api.Models.Runs.Finish.{one-Runs}
use users_api.Controllers.Types.{UserController}
use users_api.Controllers.GetUser.{by_eth_query, get_user_by_eth}

-- Why the query by address may fail.
abbrev pub ByEthFails : (C : UserController) → Address → C.env.sql.Db → Type 0
ByEthFails C a = OneFails C.env reader (record (by_eth_query C a) { limit = some 1 })

module _ (C : UserController) (quiet : NoSelectHooks C.env) (lawful : IsLawful C.env.sql) where
  open C.env use {sql as S, library as L}

  -- The query by address, or the one for the referrer, fails, and not for want of a row.
  abbrev pub MissesNone : World S → Address → Type 0
  MissesNone w a =
      ByEthFails C a w.db
      × (S.bind_one reader (record (by_eth_query C a) { limit = some 1 }) w.db ≢ failed err_no_rows)

  -- If some row of the table has the address and a confirmed e-mail, then the object that
  -- `getUserByEth` returns is that of such a row. It never panics, returns an error only if its
  -- query for the address fails, and not for want of a row, or the query for the referrer of the found
  -- row does, and leaves the database alone. This
  -- holds from a well-formed heap, with no hook on selects, and for a database with the laws of
  -- Models/Laws.
  pub get_user_by_eth-confirmed :
      (w : World S) (a : Address) (other : Row)
      → IsWf w.heap
      → In other (lawful.table reader w.db)
      → SameNull other.ethereum_address (L.bytes_from (some a))
      → other.email_confirmed ≡ true
      → Runs (MissesNone w a) w (get_user_by_eth C a w) (λ p v.
        (row : Row) × HasColumns v.heap p row
        × In row (lawful.table reader w.db)
        × SameNull row.ethereum_address (L.bytes_from (some a))
        × (row.email_confirmed ≡ true))
  unfolding get_user_by_eth users where_eq_null column_value
  get_user_by_eth-confirmed w a other wf stored same confirmed =
      let plain : PlainQuery (record (by_eth_query C a) { limit = some 1 }) =
        (refl, (tt, (tt, (inl refl, (refl, tt))))) in
      weaken-Runs (get_user_by_eth C a)
        (reason-Runs (get_user_by_eth C a)
          (λ f. (
            f,
            lawful.bind_one_finds reader _ w.db other plain refl stored
                (same, (tt, (tt, (tt, tt)))),
          ))
          (one-Runs C.env quiet w wf reader (by_eth_query C a) tt))
        λ p v _ f. (
          f.row,
          f.columns,
          lawful.bind_one_in reader _ w.db f.row plain f.bound,
          (lawful.bind_one_meets reader _ w.db f.row plain f.bound).0,
          lawful.bind_one_confirmed reader _ w.db f.row other plain refl f.bound stored
              (same, (tt, (tt, (tt, tt)))) confirmed,
        )
