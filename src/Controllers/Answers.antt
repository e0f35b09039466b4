-- ===== src/Controllers/Answers.antt =====
-- internal/controllers/user_controller.go: whom `GetUserV2` shows.
use mathlib.Core.Path.{subst, subst₂}
use users_api.Base.{some, String, ◌≡◌, refl, ◌∙◌, string_eq}
use users_api.Go.Result.{ok, done}
use users_api.Go.Exec.{lift, wrapping}
use users_api.Models.User.{Row, UserPtr, column_value}
use users_api.Models.Where.{where_op}
use users_api.Models.Sql.{reader, Query}
use users_api.Models.World.{Heap, World}
use users_api.Models.Select.{users, one}
use users_api.Models.Laws.{IsLawful, PlainQuery, In}
use users_api.Models.Runs.{IsWf, Runs, HasR, HasColumns, bind-Runs, reason-Runs}
use users_api.Models.Runs.Reasons.{OneFails}
use users_api.Models.Runs.Steps.{lift-Runs, wrapping-Runs, weaken-Runs}
use users_api.Models.Runs.Related.{NoSelectHooks}
use users_api.Models.Runs.Finish.{one-Runs}
use users_api.Controllers.Types.{UserResponse, json_user, UserController}
use users_api.Controllers.Request.{Request, get_user_id}
use users_api.Controllers.GetUser.{by_id_query, respond_user, get_user_v2}
use users_api.Controllers.Shown.{Details, respond_user-Runs}

-- An object with its relations struct, and the row that its columns are.
pub record Object (h : Heap) (p : UserPtr) (row : Row) : Type 0 where
  pub columns : HasColumns h p row
  pub relations : HasR h p

-- The query by key, and why it may fail.
abbrev pub by_id_limited : String → Query
by_id_limited user_id = record (by_id_query user_id) { limit = some 1 }

abbrev pub ByIdFails : (C : UserController) → String → C.env.sql.Db → Type 0
ByIdFails C user_id = OneFails C.env reader (by_id_limited user_id)

module _ (C : UserController) (quiet : NoSelectHooks C.env) where
  open C.env use {sql as S, library as L}

  -- `GetUserV2` answers with the details of the row that the query by key gave.
  pub get_user_v2-Runs :
      (w : World S) (c : Request) (user_id : String)
      → IsWf w.heap
      → get_user_id c ≡ ok user_id
      → Runs (ByIdFails C user_id w.db) w (get_user_v2 C c w) (λ a _.
        (out : UserResponse) × (row : Row) × (a ≡ json_user out)
        × (S.bind_one reader (by_id_limited user_id) w.db ≡ done row)
        × Details C row out)
  unfolding get_user_v2
  get_user_v2-Runs w c user_id wf subject =
      bind-Runs (lift (get_user_id c)) _ (lift-Runs (get_user_id c) subject wf) λ s v wfv _ db e.
        bind-Runs (wrapping _ (one C.env reader (by_id_query s))) _
          (reason-Runs (wrapping _ (one C.env reader (by_id_query s))) (subst₂ (ByIdFails C) e db) (
            wrapping-Runs _ (one C.env reader (by_id_query s))
              (one-Runs C.env quiet v wfv reader (by_id_query s) tt)))
          λ p z wfz _ _ f.
            weaken-Runs (respond_user C p)
              (respond_user-Runs C z wfz p f.row f.columns (f.relations refl))
              λ a _ _ (out, sent, details). (
                out,
                f.row,
                sent,
                subst₂ (λ i d. S.bind_one reader (by_id_limited i) d ≡ done f.row) e db f.bound,
                details,
              )

module _ (C : UserController) (quiet : NoSelectHooks C.env) (lawful : IsLawful C.env.sql) where
  open C.env use {sql as S, library as L}

  -- What the query by key gives is the row of that key.
  bound_by_id :
      (user_id : String) (d : S.Db) (row : Row)
      → S.bind_one reader (by_id_limited user_id) d ≡ done row
      → In row (lawful.table reader d) × (row.id ≡ user_id)
  unfolding users where_op column_value
  bound_by_id user_id d row bound =
      let plain : PlainQuery (by_id_limited user_id) = (refl, (tt, (tt, (refl, tt)))) in
      (
        lawful.bind_one_in reader _ d row plain bound,
        (lawful.bind_one_meets reader _ d row plain bound).0,
      )

  -- The query by key finds the row of that key.
  pub by_id-Runs :
      (w : World S)
      → IsWf w.heap
      → (user_id : String)
      → Runs (ByIdFails C user_id w.db) w (one C.env reader (by_id_query user_id) w) (λ p v.
        (row : Row) × Object v.heap p row × In row (lawful.table reader w.db) × (row.id ≡ user_id))
  unfolding users where_op
  by_id-Runs w wf user_id =
      weaken-Runs (one C.env reader (by_id_query user_id))
        (one-Runs C.env quiet w wf reader (by_id_query user_id) tt)
        λ p v _ f.
          let (stored, key) = bound_by_id user_id w.db f.row f.bound in
          (f.row, record { columns = f.columns; relations = f.relations refl }, stored, key)

  -- A read has left the table as it was.
  pub seen :
      {d e : S.Db} (row : Row)
      → d ≡ e
      → In row (lawful.table reader d)
      → In row (lawful.table reader e)
  seen row db = subst (λ (x : S.Db). In row (lawful.table reader x)) db

  pub get_user_v2-Details :
      (w : World S) (c : Request) (user_id : String)
      → IsWf w.heap
      → get_user_id c ≡ ok user_id
      → Runs (ByIdFails C user_id w.db) w (get_user_v2 C c w) (λ a _.
        (out : UserResponse) × (row : Row) × (a ≡ json_user out)
        × (out.id ≡ user_id)
        × In row (lawful.table reader w.db)
        × Details C row out)
  get_user_v2-Details w c user_id wf subject =
      weaken-Runs (get_user_v2 C c) (get_user_v2-Runs C quiet w c user_id wf subject)
        λ a _ _ (out, row, sent, bound, details).
          let (stored, key) = bound_by_id user_id w.db row bound in
          (out, row, sent, details.id ∙ key, stored, details)
