-- ===== src/Tests/Linked.antt =====
-- The theorems on the links between loaded objects at concrete inputs where their hypotheses hold.
use users_api.Models.Sql.{writer, reader}
use users_api.Models.Related.{add_referring_user_users, set_referring_user_users}
use users_api.Models.Related.Replaced.{AreReplaced, set_referring_user_users-AreReplaced}
use users_api.Models.Related.Goes.{Goes}
use users_api.Models.Related.Added.{AreLinked}
use users_api.Models.Related.Released.{ListIs}
use users_api.Models.Related.Appended.{add_referring_user_users-AreAdded}
use users_api.Tests.Writes.{pair_world, first, second}
use users_api.Go.Result.{ok}
use mathlib.Core.Path.{subst}
use mathlib.Core.Option.{some-injective}
use users_api.Base.{
  false, String, true, Option, none, some, [], ◌∷◌, ◌≡◌, refl, ap, ◌∙◌, inl, inr, arith, All,
  Bool-cases, string_eq, nat_eq, ◌==◌, ◌&&◌,
}
use users_api.Go.Null.{Null}
use users_api.Models.User.{column_value, User, Row, Column, null_text}
use users_api.Models.Load.{load_referring_user, load_referring_user_slice}
use users_api.Models.Load.Linked.{IsLinked}
use users_api.Models.Load.Fetching.{IsFaithful}
use users_api.Models.Runs.Reasons.{in_query, OneFails}
use users_api.Models.Load.Referrers.{
  load_referring_user_slice-IsLinked, load_referring_user-IsLinked,
}
use users_api.Models.Runs.{Holds}
use users_api.Api.Answers.{limited}
use users_api.Api.Users.{id_query, get_user_by_id}
use users_api.Controllers.Answers.{ByIdFails}
use users_api.Api.Referrer.{FoundRow, get_user_by_id-NamesReferrer}
use users_api.Controllers.Request.{get_user_id, get_claims}
use users_api.Controllers.GetUser.{get_user_v2}
use users_api.Controllers.Referrer.{ShownRow, get_user_v2-FromReferrer}
use users_api.Tests.Memory.{selected, done-injective}
use users_api.Tests.Fixture.{
  controller, request, library, env, row, valid, world_of, world_IsWf, held_world,
}

selected_key :
    (k : Null String) (d : Option Row)
    → All
        (λ r. library.key_equal_id k r.id ≡ true)
        (selected (in_query Column.id (null_text k ∷ [])) d)
unfolding column_value
selected_key k none = tt
selected_key k (some x) = elim (Bool-cases (k.valid && k.value == x.id)) [
  | inl e ↦ rw e (e, tt)
  | inr e ↦ rw e tt
]

memory_IsFaithful : IsFaithful env
memory_IsFaithful conn k d cursor rows queried bound =
    subst (All (λ r. library.key_equal_id k r.id ≡ true))
      (done-injective queried ∙ done-injective bound) (selected_key k d)

-- A user that was referred by itself.
abbrev referred : Row
referred = record row { referred_at = valid 5; referring_user_id = valid "u1" }

held_IsLinked : IsLinked library held_world.heap
held_IsLinked = record {
  linked = λ p u r q e loaded eq.
      cc (ap (λ (y : User). y.r) (some-injective (record { columns = row; r = none }) u e), loaded);
}

world_IsLinked : IsLinked library (world_of (some referred)).heap
world_IsLinked = record { linked = λ p u r q e. cc (e) }

load_referring_user_slice-IsLinked_example :
    IsLinked library (load_referring_user_slice env reader (0 ∷ []) held_world).1.heap
load_referring_user_slice-IsLinked_example =
    load_referring_user_slice-IsLinked env refl held_world held_IsLinked reader (0 ∷ [])

load_referring_user-IsLinked_example :
    IsLinked library (load_referring_user env reader 0 held_world).1.heap
load_referring_user-IsLinked_example =
    load_referring_user-IsLinked env refl memory_IsFaithful held_world held_IsLinked reader 0
      (omega arith)

get_user_by_id-NamesReferrer_example :
    Holds
      (get_user_by_id env "u1" (world_of (some referred))).0
      (OneFails env reader (limited (id_query env "u1")) (some referred))
      (FoundRow env refl memory_IsFaithful "u1" (world_of (some referred)))
get_user_by_id-NamesReferrer_example =
    get_user_by_id-NamesReferrer env refl memory_IsFaithful "u1" (world_of (some referred))
      world_IsLinked (world_IsWf (some referred))

subject : get_user_id request ≡ ok "u1"
unfolding get_user_id get_claims string_eq
subject = refl

get_user_v2-FromReferrer_example :
    Holds
      (get_user_v2 (controller []) request (world_of (some referred))).0
      (ByIdFails (controller []) "u1" (some referred))
      (ShownRow (controller []) refl memory_IsFaithful "u1" (world_of (some referred)))
get_user_v2-FromReferrer_example =
    get_user_v2-FromReferrer (controller []) refl memory_IsFaithful (world_of (some referred))
      request "u1" world_IsLinked (world_IsWf (some referred)) subject

add_referring_user_users-AreAdded_example :
    Goes (add_referring_user_users env writer false 0 (1 ∷ []) pair_world) (λ _ v.
      AreLinked env (library.key_assign "u1") 0 (1 ∷ []) v.heap
      × ListIs env (1 ∷ []) 0 v.heap
      × (v.heap.cell 5 ≡ some second))
unfolding nat_eq
add_referring_user_users-AreAdded_example =
    add_referring_user_users-AreAdded env writer 0 (1 ∷ []) 5 first pair_world refl
      ((second, refl), tt) (omega arith)

-- The second object, which has the first in its list, gets itself.
set_referring_user_users-AreReplaced_example :
    Goes
      (set_referring_user_users env writer false 1 (1 ∷ []) pair_world)
      (λ _ v. AreReplaced env second 1 (1 ∷ []) v.heap)
unfolding nat_eq
set_referring_user_users-AreReplaced_example =
    set_referring_user_users-AreReplaced env writer 1 (1 ∷ []) second pair_world refl
      ((second, refl), tt) ((first, refl), tt)
