-- ===== src/Grpc/Stubs.antt =====
-- pkg/grpc/users_grpc.pb.go: the client, the server's interface, the handlers and their table. The
-- package grpc is a parameter.
use users_api.Base.{String, Option, none, some, List, [], ◌∷◌, string_eq}
use users_api.Go.Error.{status_error}
use users_api.Go.Result.{Result, ok, panic, Attempt, attempt}
use users_api.Go.Exec.{Exec, pure, raise, lift, ◌>>=◌}
use users_api.Grpc.Messages.{
  PbUser, GetUserRequest, GetUserByEthRequest, GetUsersByEthereumAddressRequest,
  GetUsersByEthereumAddressResponse, Kind, get_user_request, get_user_by_eth_request,
  get_users_by_ethereum_address_request, user, get_users_by_ethereum_address_response, Message, Any,
}

abbrev pub get_user_full_method_name : String
get_user_full_method_name = "/users.UserService/GetUser"

abbrev pub get_user_by_eth_addr_full_method_name : String
get_user_by_eth_addr_full_method_name = "/users.UserService/GetUserByEthAddr"

abbrev pub get_users_by_ethereum_address_full_method_name : String
get_users_by_ethereum_address_full_method_name = "/users.UserService/GetUsersByEthereumAddress"

-- `dec`, which reads the request into a new message of a type, or fails.
abbrev pub Decoder : Type 0
Decoder = (k : Kind) → Attempt (Message k)

-- The type assertions on what an interceptor hands on.
abbrev as_get_user_request : Any → Result GetUserRequest
as_get_user_request (get_user_request, req) = ok req
as_get_user_request _ = panic "interface conversion"

abbrev as_get_user_by_eth_request : Any → Result GetUserByEthRequest
as_get_user_by_eth_request (get_user_by_eth_request, req) = ok req
as_get_user_by_eth_request _ = panic "interface conversion"

abbrev as_get_users_by_ethereum_address_request : Any → Result GetUsersByEthereumAddressRequest
as_get_users_by_ethereum_address_request (get_users_by_ethereum_address_request, req) = ok req
as_get_users_by_ethereum_address_request _ = panic "interface conversion"

module _ (World : Type 0) where
  -- The two interfaces have the same methods; `World` is the state that a call changes.
  pub record UserService : Type 0 where
    pub get_user : GetUserRequest → Exec World PbUser
    pub get_user_by_eth_addr : GetUserByEthRequest → Exec World PbUser
    pub get_users_by_ethereum_address :
        GetUsersByEthereumAddressRequest → Exec World GetUsersByEthereumAddressResponse

  -- codes.Unimplemented
  abbrev pub unimplemented : UserService
  unimplemented = record {
    get_user = λ req. raise (status_error 12 "method GetUser not implemented");
    get_user_by_eth_addr = λ req. raise (status_error 12 "method GetUserByEthAddr not implemented");
    get_users_by_ethereum_address =
        λ req. raise (status_error 12 "method GetUsersByEthereumAddress not implemented");
  }

  -- `grpc.UnaryServerInfo`
  pub record UnaryServerInfo : Type 0 where
    pub server : UserService
    pub full_method : String

  -- `grpc.UnaryHandler` and `grpc.UnaryServerInterceptor`
  abbrev pub UnaryHandler : Type 0
  UnaryHandler = Any → Exec World Any

  abbrev pub Interceptor : Type 0
  Interceptor = Any → UnaryServerInfo → UnaryHandler → Exec World Any

  -- The methods as handlers see them: the answer in an `interface{}`.
  abbrev call_get_user : UserService → GetUserRequest → Exec World Any
  call_get_user srv req = do out ← srv.get_user req; pure (user, out)

  abbrev call_get_user_by_eth_addr : UserService → GetUserByEthRequest → Exec World Any
  call_get_user_by_eth_addr srv req = do out ← srv.get_user_by_eth_addr req; pure (user, out)

  abbrev call_get_users_by_ethereum_address :
      UserService → GetUsersByEthereumAddressRequest → Exec World Any
  call_get_users_by_ethereum_address srv req = do
    out ← srv.get_users_by_ethereum_address req
    pure (get_users_by_ethereum_address_response, out)

  abbrev intercepted :
      Option Interceptor → Any → UnaryServerInfo → UnaryHandler → Exec World Any → Exec World Any
  intercepted none req info handler plain = plain
  intercepted (some interceptor) req info handler plain = interceptor req info handler

  unfoldable pub get_user_handler : UserService → Decoder → Option Interceptor → Exec World Any
  get_user_handler srv dec interceptor = do
    req ← lift (attempt (dec get_user_request))
    let info : UnaryServerInfo = record { server = srv; full_method = get_user_full_method_name }
    intercepted interceptor (get_user_request, req) info
        (λ r. do q ← lift (as_get_user_request r); call_get_user srv q) (call_get_user srv req)

  unfoldable pub get_user_by_eth_addr_handler :
      UserService → Decoder → Option Interceptor → Exec World Any
  get_user_by_eth_addr_handler srv dec interceptor = do
    req ← lift (attempt (dec get_user_by_eth_request))
    let info : UnaryServerInfo = record {
      server = srv;
      full_method = get_user_by_eth_addr_full_method_name;
    }
    intercepted interceptor (get_user_by_eth_request, req) info
        (λ r. do q ← lift (as_get_user_by_eth_request r); call_get_user_by_eth_addr srv q)
        (call_get_user_by_eth_addr srv req)

  unfoldable pub get_users_by_ethereum_address_handler :
      UserService → Decoder → Option Interceptor → Exec World Any
  get_users_by_ethereum_address_handler srv dec interceptor = do
    req ← lift (attempt (dec get_users_by_ethereum_address_request))
    let info : UnaryServerInfo = record {
      server = srv;
      full_method = get_users_by_ethereum_address_full_method_name;
    }
    intercepted interceptor (get_users_by_ethereum_address_request, req) info
        (λ r. do
          q ← lift (as_get_users_by_ethereum_address_request r)
          call_get_users_by_ethereum_address srv q)
        (call_get_users_by_ethereum_address srv req)

  -- `grpc.MethodDesc` and `grpc.ServiceDesc`
  pub record MethodDesc : Type 0 where
    pub method_name : String
    pub handler : UserService → Decoder → Option Interceptor → Exec World Any

  pub record ServiceDesc : Type 0 where
    pub service_name : String
    pub methods : List MethodDesc

  -- `UserService_ServiceDesc`
  unfoldable pub user_service_desc : ServiceDesc
  unfolding get_user_handler get_user_by_eth_addr_handler get_users_by_ethereum_address_handler
  user_service_desc = record {
    service_name = "users.UserService";
    methods =
        record { method_name = "GetUser"; handler = get_user_handler }
        ∷ record { method_name = "GetUserByEthAddr"; handler = get_user_by_eth_addr_handler }
        ∷ record {
          method_name = "GetUsersByEthereumAddress";
          handler = get_users_by_ethereum_address_handler;
        }
        ∷ [];
  }
