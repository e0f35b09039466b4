-- ===== src/Controllers/Shown.antt =====
-- internal/controllers/user_controller.go: what the response to a user's own requests shows of a row.
use mathlib.Core.Option.{some-injective}
use users_api.Base.{true, false, Option, none, some, ◌≡◌, refl, ◌∙◌, sym, ap}
use users_api.Go.Library.{Library}
use users_api.Models.User.{Row, UserPtr, UserR, User}
use users_api.Models.Sql.{Sql}
use users_api.Models.World.{World, get_user}
use users_api.Models.Runs.{
  IsWf, Runs, HasR, HasColumns, HasR-Extends, HasColumns-Extends, bind-Runs,
}
use users_api.Models.Runs.Steps.{pure-Runs, get_user-Runs, get_optional-Runs}
use users_api.Controllers.Types.{UserResponse, json_user, UserController}
use users_api.Controllers.Format.{user_response, referring_user_of, format_user}
use users_api.Controllers.Used.{compute_web3_used}
use users_api.Controllers.GetUser.{used_or_false, respond_user}

-- The details of a response are those of a row; the referral code is shown only with a confirmed
-- Ethereum address, and the flag `used` is what the two device services told.
pub record Details (C : UserController) (row : Row) (out : UserResponse) : Type 0 where
  pub id : out.id ≡ row.id
  pub email_address : out.email.address ≡ row.email_address
  pub email_confirmed : out.email.confirmed ≡ row.email_confirmed
  pub web3_confirmed : out.web3.confirmed ≡ row.ethereum_confirmed
  pub shows_code : row.ethereum_confirmed ≡ true → out.referral_code ≡ row.referral_code
  pub hides_code : row.ethereum_confirmed ≡ false → out.referral_code.valid ≡ false
  pub used : out.web3.used ≡ used_or_false (compute_web3_used C row)

module _ (L : Library) {S : Sql} where
  referring-Runs :
      {F : Type 0}
      → (w : World S) → IsWf w.heap
      → (p : UserPtr) (u : User) (o : Option UserR) → w.heap.cell p ≡ some u
      → u.r ≡ o
      → Runs F w (referring_user_of o w) (λ _ _. Unit)
  unfolding referring_user_of
  referring-Runs w wf p u none e l = pure-Runs none wf tt
  referring-Runs w wf p u (some r) e l =
      get_optional-Runs w wf r.referring_user (λ q eq. wf.closed p u r q e l eq)

  -- The response is built of the object's columns and of some referrer.
  format_user-Runs :
      {F : Type 0}
      → (w : World S) → IsWf w.heap
      → (p : UserPtr) (row : Row) → HasColumns w.heap p row
      → HasR w.heap p
      → Runs F w (format_user L p w) (λ out _.
        (u : User) × (ref : Option User) × (u.columns ≡ row) × (out ≡ user_response L u ref))
  unfolding format_user
  format_user-Runs w wf p row c h =
      bind-Runs (get_user p) _ (get_user-Runs w wf p h.below) λ u v wfv xv _ e.
        let g = HasR-Extends p xv h in
        let d = HasColumns-Extends p xv c in
        let same : u.columns ≡ row =
          ap (λ (y : User). y.columns) (some-injective u d.user (sym e ∙ d.here)) ∙ d.same in
        bind-Runs (referring_user_of u.r) _ (referring-Runs v wfv p u u.r e refl)
          λ ref z wfz _ _ _. pure-Runs _ wfz (u, ref, same, refl)

module _ (C : UserController) where
  open C.env use {sql as S, library as L}

  response-Details :
      (row : Row) (u v : User) (ref : Option User)
      → u.columns ≡ row
      → v.columns ≡ row
      → let out = user_response L u ref in
        Details C row (record out {
          web3 = record out.web3 { used = used_or_false (compute_web3_used C v.columns) };
        })
  unfolding user_response
  response-Details row u v ref e f = record {
    id = ap (λ (r : Row). r.id) e;
    email_address = ap (λ (r : Row). r.email_address) e;
    email_confirmed = ap (λ (r : Row). r.email_confirmed) e;
    web3_confirmed = ap (λ (r : Row). r.ethereum_confirmed) e;
    shows_code = λ z.
        rw (ap (λ (r : Row). r.ethereum_confirmed) e ∙ z) (ap (λ (r : Row). r.referral_code) e);
    hides_code = λ z. rw (ap (λ (r : Row). r.ethereum_confirmed) e ∙ z);
    used = ap (λ (r : Row). used_or_false (compute_web3_used C r)) f;
  }

  -- The end of both handlers answers with the details of the object's columns.
  pub respond_user-Runs :
      {F : Type 0}
      → (w : World S) → IsWf w.heap
      → (p : UserPtr) (row : Row) → HasColumns w.heap p row
      → HasR w.heap p
      → Runs F w
          (respond_user C p w)
          (λ a _. (out : UserResponse) × (a ≡ json_user out) × Details C row out)
  unfolding respond_user
  respond_user-Runs w wf p row c h =
      bind-Runs (format_user L p) _ (format_user-Runs L w wf p row c h)
        λ out v wfv xv _ (u, ref, e, same).
          bind-Runs (get_user p) _ (get_user-Runs v wfv p (HasColumns-Extends p xv c).below)
            λ user z wfz xz _ here.
              let d = HasColumns-Extends p xz (HasColumns-Extends p xv c) in
              let f : user.columns ≡ row =
                ap (λ (y : User). y.columns) (some-injective user d.user (sym here ∙ d.here))
                ∙ d.same in
              pure-Runs _ wfz (_, refl, rw same (response-Details row u user ref e f))
