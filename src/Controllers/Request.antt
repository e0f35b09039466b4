-- ===== src/Controllers/Request.antt =====
-- internal/controllers/handlers.go: what the handlers read from a request, and the error response.
use users_api.Base.{String, Option, none, some, List, [], ◌∷◌, ◌==◌, string_eq, if◌then◌else◌, ℕ}
use users_api.Go.Error.{Error, error_text}
use users_api.Go.Result.{Result, ok, err, panic, Attempt}
use users_api.Go.Null.{Address}
use users_api.Go.Library.{Library}
use users_api.Controllers.Types.{CheckEmailRequest, Reply, json_error}

-- A value of `jwt.MapClaims`.
pub data Claim : Type 0 where
  claim_text : String → Claim
  claim_other : Claim

abbrev pub MapClaims : Type 0
MapClaims = List (String × Claim)

-- `jwt.Token`: its claims are a map, or of another type.
pub data Token : Type 0 where
  map_claims : MapClaims → Token
  other_claims : Token

-- `fiber.Ctx`: the local "user" that the authentication sets, the query's values, and what
-- `BodyParser` makes of the body.
pub record Request : Type 0 where
  pub user_local : Option Token
  pub query : String → String
  pub body : Attempt CheckEmailRequest

abbrev pub find_claim : String → MapClaims → Option Claim
find_claim key [] = none
find_claim key ((k, v) ∷ rest) = if key == k then some v else find_claim key rest

-- The two type assertions panic where they fail.
unfoldable pub get_claims : Request → Result MapClaims
get_claims c = elim c.user_local [
  | some token ↦ elim token [ map_claims m ↦ ok m | other_claims ↦ panic "claims are no map" ]
  | none ↦ panic "no token"
]

abbrev pub subject : Option Claim → Result String
subject none = panic "sub is nil"
subject (some (claim_text s)) = ok s
subject (some claim_other) = panic "sub is no string"

-- `getUserID`
unfoldable pub get_user_id : Request → Result String
unfolding get_claims
get_user_id c = elim (get_claims c) [
  | ok m ↦ subject (find_claim "sub" m)
  | err e ↦ err e
  | panic why ↦ panic why
]

abbrev pub eth_claim : Library → Option Claim → Result (Option Address)
eth_claim L none = ok none
eth_claim L (some (claim_text s)) = ok (some (L.hex_to_address s))
eth_claim L (some claim_other) = panic "ethereum_address is no string"

-- `getUserEthAddr`
unfoldable pub get_user_eth_addr : Library → Request → Result (Option Address)
unfolding get_claims
get_user_eth_addr L c = elim (get_claims c) [
  | ok m ↦ eth_claim L (find_claim "ethereum_address" m)
  | err e ↦ err e
  | panic why ↦ panic why
]

-- `errorResponseHandler`
unfoldable pub error_response_handler : Option Error → ℕ → Reply
error_response_handler none status = json_error status ""
error_response_handler (some e) status = json_error status (error_text e)
