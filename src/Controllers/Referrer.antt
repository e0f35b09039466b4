-- ===== src/Controllers/Referrer.antt =====
-- internal/controllers/user_controller.go: whose address `GetUserV2` shows as the referrer.
use mathlib.Core.Path.{subst}
use mathlib.Core.Option.{some-injective}
use users_api.Base.{String, ◌<>◌, true, Option, none, some, ◌≡◌, refl, sym, ap, ◌∙◌, string_eq}
use users_api.Go.Exec.{lift, wrapping, ◌>>=◌}
use users_api.Go.Result.{Result, ok, done}
use users_api.Go.Steps.{bind-ok}
use users_api.Go.Library.{Library}
use users_api.Models.User.{Row, UserPtr, UserR, User}
use users_api.Models.Sql.{Sql, reader}
use users_api.Models.World.{World, get_user, get_optional}
use users_api.Models.Objects.{get_user_lem}
use users_api.Models.Select.{one}
use users_api.Models.Load.Linked.{Named, IsLinked}
use users_api.Models.Load.Keeps.{
  Returns-Holds, Returns, Keeps, pure-Keeps, wrapping-Keeps, bind-Keeps, get_user-Keeps,
  weaken-Keeps,
}
use users_api.Models.Load.Fetching.{IsFaithful}
use users_api.Models.Load.One.{one-Keeps}
use users_api.Models.Runs.{IsWf, HasColumns, Holds}
use users_api.Models.Runs.Related.{NoSelectHooks}
use users_api.Go.Error.{fiber_error}
use users_api.Controllers.Answers.{ByIdFails, get_user_v2-Runs}
use users_api.Controllers.Types.{Reply, UserResponse, json_user, UserController}
use users_api.Controllers.Request.{Request, get_user_id}
use users_api.Controllers.Format.{referrer, referring_user_of, user_response, format_user}
use users_api.Controllers.GetUser.{by_id_query, respond_user, get_user_v2, not_found_as}

-- The referrer that is shown is that of a user whom the key names, or there is none.
pub record FromReferrer (L : Library) (row : Row) (out : UserResponse) : Type 0 where
  pub ref : Option User
  pub shown : out.referred_by ≡ referrer L ref
  pub named : (t : User) → ref ≡ some t → L.key_equal_id row.referring_user_id t.columns.id ≡ true

abbrev Names : Library → User → Option User → Type 0
Names L u ref =
    (t : User) → ref ≡ some t → L.key_equal_id u.columns.referring_user_id t.columns.id ≡ true

module _ (L : Library) {S : Sql} where
  optional-Keeps :
      (w : World S)
      → IsLinked L w.heap
      → (u : User) (o : Option UserPtr) → ((q : UserPtr) → o ≡ some q → Named L w.heap u q)
      → Keeps L w (get_optional o w) (λ ref _. Names L u ref)
  unfolding get_optional
  optional-Keeps w good u none named = pure-Keeps L none good (λ t e. cc)
  optional-Keeps w good u (some q) named =
      let n = named q refl in
      rw (get_user_lem w q n.target n.here) (
        pure-Keeps L (some n.target) good (λ t e.
          ap (λ (y : User). L.key_equal_id u.columns.referring_user_id y.columns.id)
            (sym (some-injective n.target t e))
          ∙ n.named))

  referring-Keeps :
      (w : World S)
      → IsLinked L w.heap
      → (p : UserPtr) (u : User) → w.heap.cell p ≡ some u
      → (r : Option UserR) → u.r ≡ r
      → Keeps L w (referring_user_of r w) (λ ref _. Names L u ref)
  unfolding referring_user_of
  referring-Keeps w good p u here none e = pure-Keeps L none good (λ t z. cc)
  referring-Keeps w good p u here (some r) e =
      optional-Keeps w good u r.referring_user (λ q eq. good.linked p u r q here e eq)

  format_user-Keeps :
      (w : World S)
      → IsLinked L w.heap
      → (p : UserPtr) (row : Row) → HasColumns w.heap p row
      → Keeps L w (format_user L p w) (λ out _. FromReferrer L row out)
  unfolding format_user user_response
  format_user-Keeps w good p row has = rw (get_user_lem w p has.user has.here) (
      bind-Keeps L (referring_user_of has.user.r) _
        (referring-Keeps w good p has.user has.here has.user.r refl)
        λ ref v goodv _ names. pure-Keeps L (user_response L has.user ref) goodv (record {
          ref = ref;
          shown = refl;
          named = λ t e.
              ap (λ (x : Row). L.key_equal_id x.referring_user_id t.columns.id) (sym has.same)
              ∙ names t e;
        }))

module _ (C : UserController) (quiet : NoSelectHooks C.env) (faithful : IsFaithful C.env) where
  open C.env use {sql as S, library as L}

  -- What is shown of the row that the query by key found.
  abbrev pub ShownRow : String → World S → Reply → Type 0
  ShownRow user_id w a =
      (out : UserResponse) × (row : Row) × (a ≡ json_user out)
      × (S.bind_one reader (record (by_id_query user_id) { limit = some 1 }) w.db ≡ done row)
      × FromReferrer L row out

  respond_user-Keeps :
      (w : World S)
      → IsLinked L w.heap
      → (p : UserPtr) (row : Row) → HasColumns w.heap p row
      → Keeps L w
          (respond_user C p w)
          (λ a _. (out : UserResponse) × (a ≡ json_user out) × FromReferrer L row out)
  unfolding respond_user
  respond_user-Keeps w good p row has =
      bind-Keeps L (format_user L p) _ (format_user-Keeps L w good p row has) λ out v goodv _ from.
        bind-Keeps L (get_user p) _ (get_user-Keeps L v goodv p) λ user z goodz _ _.
          pure-Keeps L _ goodz
            (_, refl, record { ref = from.ref; shown = from.shown; named = from.named })

  pub get_user_v2-FromReferrer :
      (w : World S) (c : Request) (user_id : String)
      → IsLinked L w.heap
      → IsWf w.heap
      → get_user_id c ≡ ok user_id
      → Holds (get_user_v2 C c w).0 (ByIdFails C user_id w.db) (ShownRow user_id w)
  unfolding get_user_v2
  get_user_v2-FromReferrer w c user_id good wf subject =
      let query =
        wrapping (not_found_as C (fiber_error 404 ("No user with id " <> (user_id <> "."))))
          (one C.env reader (by_id_query user_id)) in
      let k : Keeps L w ((query >>= respond_user C) w) (λ a _. ShownRow user_id w a) =
        bind-Keeps L query (respond_user C)
          (wrapping-Keeps L _ (one C.env reader (by_id_query user_id))
            (one-Keeps C.env quiet faithful w good wf reader (by_id_query user_id) tt))
          λ p v goodv _ f.
            weaken-Keeps L (respond_user C p) (respond_user-Keeps v goodv p f.row f.columns)
              (λ a _ (out, sent, from). (out, f.row, sent, f.bound, from)) in
      let h = get_user_v2-Runs C quiet w c user_id wf subject in
      let same : get_user_v2 C c w ≡ (query >>= respond_user C) w =
        bind-ok (lift (get_user_id c)) (λ s. _) w w user_id (λ i. (subject i, w)) in
      Returns-Holds _ (ShownRow user_id w) (ByIdFails C user_id w.db) (get_user_v2 C c w).0
        (subst (λ (o : Result Reply × World S). Returns o.0 (ShownRow user_id w)) (sym same)
          k.result)
        h.result
