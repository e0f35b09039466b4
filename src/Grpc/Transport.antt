-- ===== src/Grpc/Transport.antt =====
-- pkg/grpc/users_grpc.pb.go: the client and the registration of a server, over what the package grpc
-- does with them.
use mathlib.Core.Option
use users_api.Base.{
  ℕ, String, Bool, true, none, some, List, [], ◌∷◌, ◌++◌, ◌<>◌, ◌≡◌, any, not, ◌&&◌, map, ◌==◌,
  string_eq,
}
use users_api.Go.Error.{Error, status_error}
use users_api.Go.Result.{Attempt, done, attempt}
use users_api.Go.Exec.{Exec, lift, wrapping, ◌>>=◌}
use users_api.Go.Null.{Bytes}
use users_api.Grpc.Messages.{
  UserReferrer, PbUser, GetUserRequest, GetUserByEthRequest, GetUsersByEthereumAddressRequest,
  GetUsersByEthereumAddressResponse, Kind, get_user_request, get_user_by_eth_request,
  get_users_by_ethereum_address_request, user, get_users_by_ethereum_address_response, Message, Any,
}
use users_api.Grpc.Stubs.{
  UserService, MethodDesc, ServiceDesc, user_service_desc, get_user_full_method_name,
  get_user_by_eth_addr_full_method_name, get_users_by_ethereum_address_full_method_name,
}

-- What a plain field of type `bytes` is behind the wire: an empty one is not sent.
abbrev pub sent_bytes : Bytes → Bytes
sent_bytes (some []) = none
sent_bytes bytes = bytes

abbrev sent_referrer : UserReferrer → UserReferrer
sent_referrer r = record r { ethereum_address = sent_bytes r.ethereum_address }

abbrev pub sent_user : PbUser → PbUser
sent_user u = record u { referred_by = Option.map sent_referrer u.referred_by }

-- A message behind the wire. An optional field is sent also where it is empty.
abbrev pub sent : (k : Kind) → Message k → Message k
sent get_user_request q = q
sent get_user_by_eth_request q = record { eth_addr = sent_bytes q.eth_addr }
sent get_users_by_ethereum_address_request q = record {
  ethereum_address = sent_bytes q.ethereum_address;
}
sent user u = sent_user u
sent get_users_by_ethereum_address_response r = record { users = map sent_user r.users }

-- The package grpc with the codec of protobuf.
pub record Grpc (World : Type 0) : Type 1 where
  pub Wire : Type 0
  pub Server : Type 0
  pub CallOption : Type 0
  pub static_method : CallOption
  pub marshal : (k : Kind) → Message k → Attempt Wire
  pub unmarshal : (k : Kind) → Wire → Attempt (Message k)
  -- The status that a server sends for an error.
  pub to_status : Error → Error
  pub new_server : Server
  pub register_service : ServiceDesc World → UserService World → Server → Server
  -- `Invoke` of a connection to a server, with a message of the given type for the answer
  pub invoke : Server → String → Any → (out : Kind) → List CallOption → Exec World (Message out)

module _ (World : Type 0) (G : Grpc World) where
  -- `UserServiceClient`
  pub record UserServiceClient : Type 0 where
    pub get_user : GetUserRequest → List G.CallOption → Exec World PbUser
    pub get_user_by_eth_addr : GetUserByEthRequest → List G.CallOption → Exec World PbUser
    pub get_users_by_ethereum_address :
        GetUsersByEthereumAddressRequest
        → List G.CallOption
        → Exec World GetUsersByEthereumAddressResponse

  -- `NewUserServiceClient`, with the three methods of `userServiceClient`
  unfoldable pub new_user_service_client : G.Server → UserServiceClient
  new_user_service_client cc = record {
    get_user = λ req opts.
        G.invoke cc get_user_full_method_name (get_user_request, req) user (G.static_method ∷ opts);
    get_user_by_eth_addr = λ req opts.
        G.invoke cc get_user_by_eth_addr_full_method_name (get_user_by_eth_request, req) user
          (G.static_method ∷ opts);
    get_users_by_ethereum_address = λ req opts.
        G.invoke cc get_users_by_ethereum_address_full_method_name
          (get_users_by_ethereum_address_request, req) get_users_by_ethereum_address_response
          (G.static_method ∷ opts);
  }

  -- `RegisterUserServiceServer`; the test of a server that is embedded by value does nothing.
  unfoldable pub register_user_service_server : UserService World → G.Server → G.Server
  unfolding user_service_desc
  register_user_service_server srv s = G.register_service (user_service_desc World) srv s

  -- The answer of a handler, sent back and read as a message of a type.
  abbrev pub answered : (out : Kind) → Exec World Any → Exec World (Message out)
  answered out handled = do
    reply ← wrapping G.to_status handled
    wire ← lift (attempt (G.marshal reply.0 reply.1))
    lift (attempt (G.unmarshal out wire))

  abbrev pub distinct : List String → Bool
  distinct [] = true
  distinct (n ∷ ns) = not (any (λ m. m == n) ns) && distinct ns

  -- What the documentation of grpc and of protobuf says of calls over a connection that works: a
  -- message is read as it was written; a status stays what it is; and a call of a method of a
  -- registered service runs the handler that the service's table has for it.
  pub record IsLawful : Type 0 where
    pub unmarshal-marshal :
        (k : Kind) (m : Message k) (wire : G.Wire)
        → G.marshal k m ≡ done wire
        → G.unmarshal k wire ≡ done (sent k m)
    pub to_status-status :
        (code : ℕ) (text : String) → G.to_status (status_error code text) ≡ status_error code text
    pub delivers :
        (desc : ServiceDesc World) (srv : UserService World) (method : MethodDesc World)
        (before after : List (MethodDesc World)) (req : Any) (wire : G.Wire) (out : Kind)
        (opts : List G.CallOption) (w : World)
        → desc.methods ≡ before ++ (method ∷ after)
        → distinct (map (λ (m : MethodDesc World). m.method_name) desc.methods) ≡ true
        → G.marshal req.0 req.1 ≡ done wire
        → G.invoke
            (G.register_service desc srv G.new_server)
            ("/" <> (desc.service_name <> ("/" <> method.method_name)))
            req
            out
            opts
            w
          ≡ answered out (method.handler srv (λ k. G.unmarshal k wire) none) w
