-- ===== src/Controllers/CheckEmail/Statuses.antt =====
-- internal/controllers/admin_handlers.go: what the map of addresses holds after the loop over the
-- users.
use users_api.Base.{
  Bool, true, ◌||◌, ◌&&◌, Option, none, some, List, [], ◌∷◌, ◌≡◌, refl, ◌∙◌, arith, ◌==◌, nat_eq,
  list_eq, any, if◌then◌else◌,
}
use users_api.Go.Null.{bytes_len, Address}
use users_api.Go.Library.{Library}
use users_api.Models.User.{Row}
use users_api.Controllers.CheckEmail.{Statuses, lookup, insert, note_user, in_app_statuses}

lookup-insert :
    (j a : Address) (b : Bool) (m : Statuses)
    → lookup j (insert a b m) ≡ (if j == a then some b else lookup j m)
unfolding lookup insert
lookup-insert j a b [] = refl
lookup-insert j a b ((k, c) ∷ m) = ground (arith, lookup-insert j a b m)

module _ (L : Library) where
  -- A user counts for an address if its own has twenty bytes and is that address.
  abbrev pub has_address : Address → Row → Bool
  has_address a user =
      bytes_len user.ethereum_address.value == 20
      && a == L.bytes_to_address user.ethereum_address.value

  -- The users of an address: none, or whether some of them has it as an in-app wallet.
  abbrev pub status_of : Address → List Row → Option Bool
  status_of a users =
      if any (has_address a) users
      then some (any (λ user. has_address a user && user.in_app_wallet) users)
      else none

  -- The status after some more users.
  abbrev merged : Option Bool → Address → List Row → Option Bool
  merged none a users = status_of a users
  merged (some b) a users = some (b || any (λ user. has_address a user && user.in_app_wallet) users)

  lookup-note_user :
      (a : Address) (user : Row) (m : Statuses)
      → lookup a (note_user L user m)
        ≡ (if has_address a user then merged (lookup a m) a (user ∷ []) else lookup a m)
  unfolding note_user
  lookup-note_user a user m =
      let addr = L.bytes_to_address user.ethereum_address.value in
      ground (arith, lookup-insert a addr user.in_app_wallet m, lookup-insert a addr true m)

  lookup-in_app_statuses_onto :
      (a : Address) (users : List Row) (m : Statuses)
      → lookup a (in_app_statuses L users m) ≡ merged (lookup a m) a users
  unfolding in_app_statuses
  lookup-in_app_statuses_onto a [] m = ground arith
  lookup-in_app_statuses_onto a (user ∷ users) m =
      lookup-in_app_statuses_onto a users (note_user L user m)
      ∙ ground (arith, lookup-note_user a user m)

  -- The map has an address exactly if it is the twenty-byte address of one of the users, and then
  -- the status says whether one of the users with the address has it as an in-app wallet.
  pub lookup-in_app_statuses :
      (a : Address) (users : List Row) → lookup a (in_app_statuses L users []) ≡ status_of a users
  unfolding lookup
  lookup-in_app_statuses a users = lookup-in_app_statuses_onto a users []
