-- ===== src/Api/Shown.antt =====
-- internal/api/users.go: what `formatUser` shows of an object, and that it never panics once the
-- relations are loaded.
use users_api.Base.{Bool, true, false, Option, none, some, ◌≡◌, refl, ◌∙◌, sym, ap, ◌≢◌, arith, ◌↔◌}
use users_api.Go.Library.{Library}
use users_api.Models.User.{Row, UserPtr, UserR, User}
use users_api.Models.Sql.{Sql}
use users_api.Models.World.{World, get_user}
use users_api.Models.Runs.{
  IsWf, Runs, HasR, HasColumns, HasR-Extends, HasColumns-Extends, bind-Runs,
}
use users_api.Models.Runs.Steps.{pure-Runs, get_user-Runs, get_optional-Runs}
use users_api.Api.Users.{UserReferrer, PbUser, deref_referrer, referred_by, pb_user, format_user}
use mathlib.Core.Path.{subst}
use mathlib.Core.Option.{some-injective, some-ne-none}

-- What a message may show of a row: contact data only once it is confirmed, and a referrer exactly
-- where the row was referred.
pub record Shows (row : Row) (out : PbUser) : Type 0 where
  pub id : out.id ≡ row.id
  pub hides_address :
      row.ethereum_confirmed ≡ false
      → (out.ethereum_address ≡ none) × (out.ethereum_address_bytes ≡ none)
  pub shows_address :
      row.ethereum_confirmed ≡ true
      → (out.ethereum_address ≢ none) × (out.ethereum_address_bytes ≡ row.ethereum_address.value)
  pub hides_email : row.email_confirmed ≡ false → out.email_address ≡ none
  pub referred : (out.referred_by ≢ none) ↔ (row.referred_at.valid ≡ true)

module _ {S : Sql} where
  deref_referrer-Runs :
      {F : Type 0}
      → (w : World S) → IsWf w.heap
      → (p : UserPtr) (u : User) (o : Option UserR) {r : UserR} → w.heap.cell p ≡ some u
      → u.r ≡ some r
      → u.r ≡ o
      → Runs F w (deref_referrer o w) (λ _ _. Unit)
  unfolding deref_referrer
  deref_referrer-Runs w wf p u none {r} e loaded l = absurd (some-ne-none r (sym loaded ∙ l))
  deref_referrer-Runs w wf p u (some s) e loaded l =
      get_optional-Runs w wf s.referring_user (λ q eq. wf.closed p u s q e l eq)

  referred_by-Runs :
      {F : Type 0}
      → (w : World S) → IsWf w.heap
      → (p : UserPtr) (u : User) (r : UserR) (b : Bool) → w.heap.cell p ≡ some u
      → u.r ≡ some r
      → Runs F w (referred_by b u.r w) (λ ref _. (ref ≢ none) ↔ (b ≡ true))
  unfolding referred_by
  referred_by-Runs w wf p u r false e loaded = pure-Runs none wf (λ n. absurd (n refl), λ z. cc)
  referred_by-Runs w wf p u r true e loaded =
      bind-Runs (deref_referrer u.r) _ (deref_referrer-Runs w wf p u u.r e loaded refl)
        λ ref v wfv _ _ _. pure-Runs _ wfv (λ _. refl, λ _ z. cc)

module _ (L : Library) where
  pb_user-Shows :
      (row : Row) (ref : Option UserReferrer)
      → (ref ≢ none) ↔ (row.referred_at.valid ≡ true)
      → Shows row (pb_user L row ref)
  unfolding pb_user
  pb_user-Shows row ref h = record {
    id = refl;
    hides_address = λ e. ground arith;
    shows_address = λ e. ground arith;
    hides_email = λ e. ground arith;
    referred = h;
  }

  pub format_user-Runs :
      {F : Type 0}
      → {S : Sql} (w : World S) → IsWf w.heap
      → (p : UserPtr) (row : Row) → HasColumns w.heap p row
      → HasR w.heap p
      → Runs F w (format_user L p w) (λ out _. Shows row out)
  unfolding format_user
  format_user-Runs w wf p row c h =
      bind-Runs (get_user p) _ (get_user-Runs w wf p h.below) λ u v wfv xv _ e.
        let g = HasR-Extends p xv h in
        let d = HasColumns-Extends p xv c in
        let loaded : u.r ≡ some g.relations =
          ap (λ (y : User). y.r) (some-injective u g.user (sym e ∙ g.here)) ∙ g.loaded in
        let same : u.columns ≡ row =
          ap (λ (y : User). y.columns) (some-injective u d.user (sym e ∙ d.here)) ∙ d.same in
        bind-Runs (referred_by u.columns.referred_at.valid u.r) _
          (referred_by-Runs v wfv p u g.relations u.columns.referred_at.valid e loaded)
          λ ref z wfz _ _ k. pure-Runs _ wfz (
            subst (λ (y : Row). Shows y (pb_user L u.columns ref)) same
              (pb_user-Shows u.columns ref k))
