-- ===== src/Grpc/Messages.antt =====
-- pkg/grpc/users.pb.go: the messages of the service.
use users_api.Base.{String, Bool, Option, List}
use users_api.Go.Null.{Bytes}

pub record GetUserRequest : Type 0 where
  pub id : String

pub record GetUserByEthRequest : Type 0 where
  pub eth_addr : Bytes

pub record GetUsersByEthereumAddressRequest : Type 0 where
  pub ethereum_address : Bytes

-- `pb.UserReferrer`
pub record UserReferrer : Type 0 where
  pub ethereum_address : Bytes
  pub referrer_valid : Bool
  pub id : String

-- `pb.User`
pub record PbUser : Type 0 where
  pub id : String
  pub ethereum_address : Option String
  pub email_address : Option String
  pub referred_by : Option UserReferrer
  pub ethereum_address_bytes : Bytes

pub record GetUsersByEthereumAddressResponse : Type 0 where
  pub users : List PbUser

-- The types of the messages, which `new` is called with.
pub data Kind : Type 0 where
  get_user_request get_user_by_eth_request get_users_by_ethereum_address_request : Kind
  user get_users_by_ethereum_address_response : Kind

abbrev pub Message : Kind → Type 0
Message get_user_request = GetUserRequest
Message get_user_by_eth_request = GetUserByEthRequest
Message get_users_by_ethereum_address_request = GetUsersByEthereumAddressRequest
Message user = PbUser
Message get_users_by_ethereum_address_response = GetUsersByEthereumAddressResponse

-- `interface{}`, where the stubs put messages into it.
abbrev pub Any : Type 0
Any = (k : Kind) × Message k
