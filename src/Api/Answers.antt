-- ===== src/Api/Answers.antt =====
-- internal/api/users.go: what the three methods answer, and that they never panic.
use users_api.Base.{
  String, true, some, List, [], ◌∷◌, ◌≡◌, refl, ◌∙◌, arith, inr, All, All-map, if◌then◌else◌,
}
use users_api.Go.Error.{Error, status_error, is_no_rows}
use users_api.Go.Result.{err, done, failed}
use users_api.Go.Exec.{wrapping, ◌>>=◌}
use users_api.Go.Null.{Bytes}
use users_api.Models.User.{Row, UserPtr, column_value}
use users_api.Models.Where.{where_op, where_eq_null}
use users_api.Models.Sql.{Query, reader}
use users_api.Models.World.{World, read_db}
use users_api.Models.Env.{Env}
use users_api.Models.Select.{users, one, bind_object, keep_no_rows, all_users}
use users_api.Models.Laws.{IsLawful, PlainQuery, SameNull, In}
use users_api.Models.Runs.{IsWf, Runs, HasR, bind-Runs}
use users_api.Models.Runs.Steps.{pure-Runs, wrapping-Runs, weaken-Runs}
use users_api.Models.Runs.Related.{NoSelectHooks, Hold, Hold-Extends, HasR-All}
use users_api.Models.Runs.Finish.{OnlyReferrer, one-Runs, all_users-Runs}
use users_api.Models.Runs.Reasons.{loads, OneFails, AllFails}
use users_api.Api.Users.{
  PbUser, format_user, format_users, id_query, eth_addr_query, get_user_by_id, get_user_by_eth_addr,
  get_users_by_ethereum_address, all_by_address_query, query_status,
}
use users_api.Api.Shown.{Shows, format_user-Runs}

-- The query of each method, as `One` runs it.
abbrev pub limited : Query → Query
limited q = record q { limit = some 1 }

module _ (E : Env) where
  open E use {sql as S, library as L}

  -- The two errors of the methods for one user.
  one_user_failed :
      (q : Query) (w : World S) (e : Error)
      → S.bind_one reader (limited q) w.db ≡ failed e
      → (do p ← wrapping query_status (one E reader q); format_user L p) w ≡ (
        err (
            if is_no_rows e
            then status_error 5 "No user with that ID found."
            else status_error 13 "Internal error."),
        w,
      )
  unfolding one bind_object query_status keep_no_rows read_db
  one_user_failed q w e h = rw h (ground arith)

  -- An error of the query becomes a gRPC status: NotFound (5) for a missing row, and Internal (13)
  -- otherwise, with a text that tells nothing of the error; nothing is changed. This holds of the
  -- method by key for an error at its key, and of the method by address for one at its address.
  pub get_user-failed :
      (user_id : String) (addr : Bytes) (w : World S) (e f : Error)
      → S.bind_one reader (limited (id_query E user_id)) w.db ≡ failed e
      → S.bind_one reader (limited (eth_addr_query E addr)) w.db ≡ failed f
      → (get_user_by_id E user_id w ≡ (
        err (
            if is_no_rows e
            then status_error 5 "No user with that ID found."
            else status_error 13 "Internal error."),
        w,
      ))
        × (get_user_by_eth_addr E addr w ≡ (
          err (
              if is_no_rows f
              then status_error 5 "No user with that ID found."
              else status_error 13 "Internal error."),
          w,
        ))
  unfolding get_user_by_id get_user_by_eth_addr users where_op where_eq_null
  get_user-failed user_id addr w e f h k =
      (one_user_failed (id_query E user_id) w e h, one_user_failed (eth_addr_query E addr) w f k)

  module _ (quiet : NoSelectHooks E) where
    pub one_user-Runs :
        (q : Query) (w : World S)
        → IsWf w.heap
        → OnlyReferrer q.mods
        → loads q.mods ≡ true
        → Runs
            (OneFails E reader (limited q) w.db)
            w
            ((do p ← wrapping query_status (one E reader q); format_user L p) w)
            (λ out _. (row : Row) × (S.bind_one reader (limited q) w.db ≡ done row) × Shows row out)
    one_user-Runs q w wf o l =
        bind-Runs (wrapping query_status (one E reader q)) _
          (wrapping-Runs query_status (one E reader q) (one-Runs E quiet w wf reader q o))
          λ p v wfv _ _ f.
            weaken-Runs (format_user L p)
              (format_user-Runs L v wfv p f.row f.columns (f.relations l))
              (λ out y _ shown. (f.row, f.bound, shown))

    -- `GetUser` never panics, returns an error only if its query for the id fails (one that finds
    -- no row included) or the query for the referrer of the found row does, and leaves the database
    -- alone; what it answers has the asked id, and
    -- shows a row of the table: an address or an email address only if it is confirmed, and a
    -- referrer exactly if the row was referred. This holds from a well-formed heap, with no hook
    -- on selects, and for a database with the laws of Models/Laws.
    pub get_user_by_id-Shows :
        (lawful : IsLawful S) (user_id : String) (w : World S)
        → IsWf w.heap
        → Runs
            (OneFails E reader (limited (id_query E user_id)) w.db)
            w
            (get_user_by_id E user_id w)
            (λ out _.
              (out.id ≡ user_id)
              × ((row : Row) × In row (lawful.table reader w.db) × Shows row out))
    unfolding get_user_by_id users where_op column_value
    get_user_by_id-Shows lawful user_id w wf =
        weaken-Runs (get_user_by_id E user_id) (one_user-Runs (id_query E user_id) w wf tt refl)
          λ out y _ (row, bound, shown).
            let plain : PlainQuery (limited (id_query E user_id)) =
              (refl, (tt, (tt, (refl, tt)))) in
            (
              shown.id ∙ (lawful.bind_one_meets reader _ w.db row plain bound).0,
              (row, lawful.bind_one_in reader _ w.db row plain bound, shown),
            )

    -- `GetUserByEthAddr` never panics, returns an error only if its query for the address fails
    -- (one that finds no row included) or the query for the referrer of the found row does, and
    -- leaves the database alone; what it answers shows a row of the table whose address is
    -- confirmed and is the asked one. This holds from a well-formed heap, with no hook on
    -- selects, and for a database with the laws of Models/Laws.
    pub get_user_by_eth_addr-Shows :
        (lawful : IsLawful S) (addr : Bytes) (w : World S)
        → IsWf w.heap
        → Runs
            (OneFails E reader (limited (eth_addr_query E addr)) w.db)
            w
            (get_user_by_eth_addr E addr w)
            (λ out _.
              (row : Row) × In row (lawful.table reader w.db)
              × (row.ethereum_confirmed ≡ true)
              × SameNull row.ethereum_address (L.bytes_from addr)
              × Shows row out)
    unfolding get_user_by_eth_addr users where_op where_eq_null column_value
    get_user_by_eth_addr-Shows lawful addr w wf =
        weaken-Runs (get_user_by_eth_addr E addr)
          (one_user-Runs (eth_addr_query E addr) w wf tt refl)
          λ out y _ (row, bound, shown).
            let plain : PlainQuery (limited (eth_addr_query E addr)) =
              (refl, (tt, (tt, (tt, (refl, tt))))) in
            let meets = lawful.bind_one_meets reader _ w.db row plain bound in
            (row, lawful.bind_one_in reader _ w.db row plain bound, meets.1.0, meets.0, shown)

    -- The messages show the rows, one for one and in order.
    abbrev pub ShowsAll : List Row → List PbUser → Type 0
    ShowsAll [] [] = Unit
    ShowsAll [] (out ∷ outs) = ⊥
    ShowsAll (row ∷ rows) [] = ⊥
    ShowsAll (row ∷ rows) (out ∷ outs) = Shows row out × ShowsAll rows outs

    format_users-Runs :
        {F : Type 0}
        → (w : World S) → IsWf w.heap
        → (ps : List UserPtr) (rows : List Row) → Hold w.heap ps rows
        → All (HasR w.heap) ps
        → Runs F w (format_users L ps w) (λ outs _. ShowsAll rows outs)
    unfolding format_users
    format_users-Runs w wf [] [] h r = pure-Runs [] wf tt
    format_users-Runs w wf [] (row ∷ rows) h r = absurd h
    format_users-Runs w wf (p ∷ ps) [] h r = absurd h
    format_users-Runs w wf (p ∷ ps) (row ∷ rows) h r =
        bind-Runs (format_user L p) _ (format_user-Runs L w wf p row h.0 r.0)
          λ out v wfv xv _ shown.
            bind-Runs (format_users L ps) _
              (format_users-Runs v wfv ps rows (Hold-Extends ps rows xv h.1) (HasR-All xv ps r.1))
              λ outs y wfy _ _ all. pure-Runs (out ∷ outs) wfy (shown, all)

    -- `GetUsersByEthereumAddress` never panics, returns an error only if its query for the
    -- address fails or the query for the referrers of the found rows does, and leaves the
    -- database alone; its answer shows, one for one and in order, the rows that the database
    -- returned, each of which has the asked address, and has it confirmed. This holds from a
    -- well-formed heap, with no hook on selects, and for a database with the laws of Models/Laws.
    pub get_users_by_ethereum_address-ShowsAll :
        (lawful : IsLawful S) (addr : Bytes) (w : World S)
        → IsWf w.heap
        → Runs
            (AllFails E reader (all_by_address_query E addr) w.db)
            w
            (get_users_by_ethereum_address E addr w)
            (λ outs _.
              (rows : List Row) × (S.bind_all reader (all_by_address_query E addr) w.db ≡ done rows)
              × ShowsAll rows outs
              × All
                  (λ row.
                    (row.ethereum_confirmed ≡ true)
                    × SameNull row.ethereum_address (L.bytes_from addr))
                  rows)
    unfolding get_users_by_ethereum_address users where_op where_eq_null column_value
    get_users_by_ethereum_address-ShowsAll lawful addr w wf =
        bind-Runs (all_users E reader (all_by_address_query E addr)) _
          (all_users-Runs E quiet w wf reader (all_by_address_query E addr) tt)
          λ ps v wfv _ _ f.
            weaken-Runs (format_users L ps)
              (format_users-Runs v wfv ps f.rows f.columns (f.relations refl))
              (λ outs y _ all. (
                f.rows,
                f.bound,
                all,
                All-map f.rows (λ row meets. (meets.0, meets.1.0))
                    (lawful.bind_all_meets reader _ w.db f.rows
                      (refl, (tt, (tt, (tt, (inr refl, (refl, tt)))))) f.bound),
              ))
