-- ===== src/Api/Referrer.antt =====
-- internal/api/users.go: whom the gRPC service shows as the referrer of a user.
use users_api.Models.Load.Keeps.{
  Returns-Holds, Keeps, pure-Keeps, wrapping-Keeps, bind-Keeps, weaken-Keeps,
}
use mathlib.Core.Option.{some-injective}
use mathlib.Core.Path.{subst}
use mathlib.Core.Bool.{true≢false}
use users_api.Base.{
  String, Bool, true, false, Option, none, some, ◌≡◌, refl, sym, ap, ◌∙◌, inl, inr, arith,
  Bool-cases, string_eq, nat_eq,
}
use users_api.Go.Exec.{pure, wrapping, ◌>>=◌}
use users_api.Go.Result.{done}
use users_api.Go.Library.{Library}
use users_api.Models.User.{Row, UserPtr, UserR, User}
use users_api.Models.Where.{where_op}
use users_api.Models.Sql.{Sql, reader}
use users_api.Models.World.{World, get_optional}
use users_api.Models.Objects.{get_user_lem}
use users_api.Models.Env.{Env}
use users_api.Models.Select.{users, one}
use users_api.Models.Load.Linked.{Named, IsLinked}
use users_api.Models.Load.Fetching.{IsFaithful}
use users_api.Models.Load.One.{one-Keeps}
use users_api.Models.Runs.{IsWf, HasColumns, Holds}
use users_api.Models.Runs.Reasons.{OneFails}
use users_api.Api.Answers.{limited, one_user-Runs}
use users_api.Models.Runs.Related.{NoSelectHooks}
use users_api.Api.Users.{
  UserReferrer, PbUser, zero_referrer, format_referrer, deref_referrer, referred_by, pb_user,
  format_user, query_status, id_query, get_user_by_id,
}

-- A referrer that is marked as valid has the id that the key names.
abbrev pub NamesReferrer : Library → Row → Option UserReferrer → Type 0
NamesReferrer L row shown =
    (ref : UserReferrer)
    → shown ≡ some ref
    → ref.referrer_valid ≡ true
    → L.key_equal_id row.referring_user_id ref.id ≡ true

module _ (L : Library) where
  format_referrer-none : (row : Row) → NamesReferrer L row (some (format_referrer none))
  unfolding format_referrer
  format_referrer-none row ref e valid = absurd (
      true≢false (
        sym valid
        ∙ ap (λ (r : UserReferrer). r.referrer_valid) (sym (some-injective zero_referrer ref e))))

  format_referrer-some :
      (row : Row) (target : User)
      → L.key_equal_id row.referring_user_id target.columns.id ≡ true
      → NamesReferrer L row (some (format_referrer (some target)))
  unfolding format_referrer
  format_referrer-some row target named ref e valid =
      elim (Bool-cases target.columns.ethereum_confirmed) [
        | inl confirmed ↦
            let same = some-injective _ ref (rw confirmed at e) in
            ap (λ (r : UserReferrer). L.key_equal_id row.referring_user_id r.id) (sym same) ∙ named
        | inr unconfirmed ↦
            let same : zero_referrer ≡ ref =
              some-injective zero_referrer ref (rw unconfirmed at e) in
            absurd (true≢false (sym valid ∙ ap (λ (r : UserReferrer). r.referrer_valid) (sym same)))
      ]

  module _ {S : Sql} where
    optional-Keeps :
        (w : World S)
        → IsLinked L w.heap
        → (u : User) (o : Option UserPtr) → ((q : UserPtr) → o ≡ some q → Named L w.heap u q)
        → Keeps L w
            ((do ref ← get_optional o; pure (some (format_referrer ref))) w)
            (λ shown _. NamesReferrer L u.columns shown)
    unfolding get_optional
    optional-Keeps w good u none named =
        pure-Keeps L (some (format_referrer none)) good (format_referrer-none u.columns)
    optional-Keeps w good u (some q) named =
        let n = named q refl in
        rw (get_user_lem w q n.target n.here) (
          pure-Keeps L (some (format_referrer (some n.target))) good
            (format_referrer-some u.columns n.target n.named))

    referred_by-Keeps :
        (w : World S)
        → IsLinked L w.heap
        → (p : UserPtr) (u : User) → w.heap.cell p ≡ some u
        → (valid : Bool) (r : Option UserR) → u.r ≡ r
        → Keeps L w (referred_by valid r w) (λ shown _. NamesReferrer L u.columns shown)
    unfolding referred_by deref_referrer
    referred_by-Keeps w good p u here false r e = pure-Keeps L none good (λ ref z. cc)
    referred_by-Keeps w good p u here true none e = record {
      linked = good;
      grows = omega arith;
      result = tt;
    }
    referred_by-Keeps w good p u here true (some r) e =
        optional-Keeps w good u r.referring_user (λ q eq. good.linked p u r q here e eq)

    format_user-Keeps :
        (w : World S)
        → IsLinked L w.heap
        → (p : UserPtr) (row : Row) → HasColumns w.heap p row
        → Keeps L w (format_user L p w) (λ out _. NamesReferrer L row out.referred_by)
    unfolding format_user pb_user
    format_user-Keeps w good p row has =
        let u = has.user in
        rw (get_user_lem w p u has.here) (
          bind-Keeps L (referred_by u.columns.referred_at.valid u.r) _
            (referred_by-Keeps w good p u has.here u.columns.referred_at.valid u.r refl)
            λ shown v goodv _ names.
              pure-Keeps L (pb_user L u.columns shown) goodv
                (subst (λ (x : Row). NamesReferrer L x shown) has.same names))

module _ (E : Env) (quiet : NoSelectHooks E) (faithful : IsFaithful E) where
  open E use {sql as S, library as L}

  -- The row that the query for one user found.
  abbrev pub FoundRow : String → World S → PbUser → Type 0
  FoundRow user_id w out =
      (row : Row) × (S.bind_one reader (record (id_query E user_id) { limit = some 1 }) w.db
        ≡ done row)
      × NamesReferrer L row out.referred_by

  -- `GetUser` never panics, returns an error only if its query for the id fails (one that finds
  -- no row included) or the query for the referrer of the found row does, and if it answers with
  -- a referrer that is marked as valid, this is the user that the foreign key of the row names,
  -- which was found for the asked id. This holds from a well-formed heap whose objects are linked
  -- as their keys say, where no hook is registered, and where the database answers a query for a
  -- key with rows that have it.
  pub get_user_by_id-NamesReferrer :
      (user_id : String) (w : World S)
      → IsLinked L w.heap
      → IsWf w.heap
      → Holds
          (get_user_by_id E user_id w).0
          (OneFails E reader (limited (id_query E user_id)) w.db)
          (FoundRow user_id w)
  unfolding get_user_by_id users where_op
  get_user_by_id-NamesReferrer user_id w good wf =
      let k : Keeps L w (get_user_by_id E user_id w) (λ out _. FoundRow user_id w out) =
        bind-Keeps L (wrapping query_status (one E reader (id_query E user_id))) _
          (wrapping-Keeps L query_status (one E reader (id_query E user_id))
            (one-Keeps E quiet faithful w good wf reader (id_query E user_id) tt))
          λ p v goodv _ f.
            weaken-Keeps L (format_user L p) (format_user-Keeps L v goodv p f.row f.columns)
              (λ out _ names. (f.row, f.bound, names)) in
      let h = one_user-Runs E quiet (id_query E user_id) w wf tt refl in
      Returns-Holds _ _ (OneFails E reader (limited (id_query E user_id)) w.db)
        (get_user_by_id E user_id w).0 k.result h.result
