-- ===== src/Grpc/Getters.antt =====
-- pkg/grpc/users.pb.go: what `Reset` leaves in a message, and the getters, which may be called on nil.
use users_api.Base.{String, Bool, false, Option, none, some, List, [], ◌≡◌, refl}
use users_api.Go.Null.{Bytes}
use users_api.Grpc.Messages.{
  UserReferrer, PbUser, GetUserRequest, GetUserByEthRequest, GetUsersByEthereumAddressRequest,
  GetUsersByEthereumAddressResponse,
}

abbrev reset_get_user_request : GetUserRequest
reset_get_user_request = record { id = "" }

abbrev reset_get_user_by_eth_request : GetUserByEthRequest
reset_get_user_by_eth_request = record { eth_addr = none }

abbrev reset_get_users_by_ethereum_address_request : GetUsersByEthereumAddressRequest
reset_get_users_by_ethereum_address_request = record { ethereum_address = none }

abbrev reset_get_users_by_ethereum_address_response : GetUsersByEthereumAddressResponse
reset_get_users_by_ethereum_address_response = record { users = [] }

abbrev reset_user : PbUser
reset_user = record {
  id = "";
  ethereum_address = none;
  email_address = none;
  referred_by = none;
  ethereum_address_bytes = none;
}

abbrev reset_user_referrer : UserReferrer
reset_user_referrer = record { ethereum_address = none; referrer_valid = false; id = "" }

-- `if x != nil { return *x }; return ""`
abbrev text_or_empty : Option String → String
text_or_empty none = ""
text_or_empty (some text) = text

-- `func (x *GetUserRequest) GetId() string`, and so on.
get_id_of_request : Option GetUserRequest → String
get_id_of_request none = ""
get_id_of_request (some x) = x.id

get_eth_addr_of_request : Option GetUserByEthRequest → Bytes
get_eth_addr_of_request none = none
get_eth_addr_of_request (some x) = x.eth_addr

get_ethereum_address_of_request : Option GetUsersByEthereumAddressRequest → Bytes
get_ethereum_address_of_request none = none
get_ethereum_address_of_request (some x) = x.ethereum_address

get_users_of_response : Option GetUsersByEthereumAddressResponse → List PbUser
get_users_of_response none = []
get_users_of_response (some x) = x.users

get_id_of_user : Option PbUser → String
get_id_of_user none = ""
get_id_of_user (some x) = x.id

get_ethereum_address_of_user : Option PbUser → String
get_ethereum_address_of_user none = ""
get_ethereum_address_of_user (some x) = text_or_empty x.ethereum_address

get_email_address_of_user : Option PbUser → String
get_email_address_of_user none = ""
get_email_address_of_user (some x) = text_or_empty x.email_address

get_referred_by_of_user : Option PbUser → Option UserReferrer
get_referred_by_of_user none = none
get_referred_by_of_user (some x) = x.referred_by

get_ethereum_address_bytes_of_user : Option PbUser → Bytes
get_ethereum_address_bytes_of_user none = none
get_ethereum_address_bytes_of_user (some x) = x.ethereum_address_bytes

get_ethereum_address_of_referrer : Option UserReferrer → Bytes
get_ethereum_address_of_referrer none = none
get_ethereum_address_of_referrer (some x) = x.ethereum_address

get_referrer_valid_of_referrer : Option UserReferrer → Bool
get_referrer_valid_of_referrer none = false
get_referrer_valid_of_referrer (some x) = x.referrer_valid

get_id_of_referrer : Option UserReferrer → String
get_id_of_referrer none = ""
get_id_of_referrer (some x) = x.id

-- On nil, each getter answers as on a message that has been reset.
getters-reset :
    (get_id_of_request none ≡ get_id_of_request (some reset_get_user_request))
    × (get_eth_addr_of_request none ≡ get_eth_addr_of_request (some reset_get_user_by_eth_request))
    × (get_ethereum_address_of_request none
        ≡ get_ethereum_address_of_request (some reset_get_users_by_ethereum_address_request))
    × (get_users_of_response none
        ≡ get_users_of_response (some reset_get_users_by_ethereum_address_response))
    × (get_id_of_user none ≡ get_id_of_user (some reset_user))
    × (get_ethereum_address_of_user none ≡ get_ethereum_address_of_user (some reset_user))
    × (get_email_address_of_user none ≡ get_email_address_of_user (some reset_user))
    × (get_referred_by_of_user none ≡ get_referred_by_of_user (some reset_user))
    × (get_ethereum_address_bytes_of_user none
        ≡ get_ethereum_address_bytes_of_user (some reset_user))
    × (get_ethereum_address_of_referrer none
        ≡ get_ethereum_address_of_referrer (some reset_user_referrer))
    × (get_referrer_valid_of_referrer none
        ≡ get_referrer_valid_of_referrer (some reset_user_referrer))
    × (get_id_of_referrer none ≡ get_id_of_referrer (some reset_user_referrer))
unfolding get_id_of_request get_eth_addr_of_request get_ethereum_address_of_request
    get_users_of_response get_id_of_user get_ethereum_address_of_user get_email_address_of_user
    get_referred_by_of_user get_ethereum_address_bytes_of_user get_ethereum_address_of_referrer
    get_referrer_valid_of_referrer get_id_of_referrer
getters-reset = (refl, refl, refl, refl, refl, refl, refl, refl, refl, refl, refl, refl)
