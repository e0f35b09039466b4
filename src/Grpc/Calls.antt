-- ===== src/Grpc/Calls.antt =====
-- pkg/grpc/users_grpc.pb.go: a call of the client runs the method of the same name on the server.
use users_api.Base.{none, List, [], ◌∷◌, ◌++◌, ◌<>◌, ◌≡◌, ap, refl, ◌∙◌, string_eq}
use users_api.Go.Result.{Result, ok, err, panic, Attempt, done, failed, attempt}
use users_api.Go.Exec.{Exec, pure, lift, wrapping, continue, ◌>>=◌}
use users_api.Grpc.Messages.{
  GetUserRequest, GetUserByEthRequest, GetUsersByEthereumAddressRequest, Kind, get_user_request,
  get_user_by_eth_request, get_users_by_ethereum_address_request, user,
  get_users_by_ethereum_address_response, Message, Any,
}
use users_api.Grpc.Stubs.{
  UserService, MethodDesc, user_service_desc, get_user_handler, get_user_by_eth_addr_handler,
  get_users_by_ethereum_address_handler,
}
use users_api.Grpc.Transport.{
  sent, Grpc, UserServiceClient, new_user_service_client, register_user_service_server, answered,
  IsLawful,
}

module _ (World : Type 0) (G : Grpc World) where
  -- A call on another machine: an error is sent as a status, a value as its text.
  abbrev pub over_wire : (k : Kind) → Exec World (Message k) → Exec World (Message k)
  over_wire k call = do
    m ← wrapping G.to_status call
    wire ← lift (attempt (G.marshal k m))
    pure (sent k m)

  module _ (lawful : IsLawful World G) (srv : UserService World) where
    -- What a handler's answer is for the client.
    back :
        (k : Kind) (r : Result (Message k)) (v : World)
        → answered World G k (λ x. continue {B = Any} r (λ m. pure (k, m)) x) v
          ≡ over_wire k (λ x. (r, x)) v
    back k (ok m) v = go (G.marshal k m) refl
      where
        go :
            (a : Attempt G.Wire)
            → G.marshal k m ≡ a
            → (lift (attempt (G.marshal k m)) >>= λ wire. lift (attempt (G.unmarshal k wire))) v
              ≡ (lift (attempt (G.marshal k m)) >>= λ wire. pure (sent k m)) v
        go (done wire) e = rw (e, lawful.unmarshal-marshal k m wire e) refl
        go (failed why) e = rw e refl
    back k (err e) v = refl
    back k (panic why) v = refl

    -- What is left of a call behind its handler.
    finish : (k : Kind) → Result Any × World → Result (Message k) × World
    finish k (r, v) = answered World G k (λ x. (r, x)) v

    -- The client's call of a method, once it is known what its handler does with the request.
    call_lem :
        (method : MethodDesc World) (before after : List (MethodDesc World)) (req : Any) (k : Kind)
        (wire : G.Wire) (opts : List G.CallOption) (w : World) (call : Exec World (Message k))
        → (user_service_desc World).methods ≡ before ++ (method ∷ after)
        → G.marshal req.0 req.1 ≡ done wire
        → method.handler srv (λ j. G.unmarshal j wire) none w ≡ (call >>= λ m. pure (k, m)) w
        → G.invoke
            (register_user_service_server World G srv G.new_server)
            ("/" <> ("users.UserService" <> ("/" <> method.method_name)))
            req
            k
            opts
            w
          ≡ over_wire k call w
    unfolding register_user_service_server user_service_desc finish string_eq
    call_lem method before after req k wire opts w call at sent_as handled =
        lawful.delivers (user_service_desc World) srv method before after req wire k opts w at refl
          sent_as
        ∙ ap (finish k) handled
        ∙ back k (call w).0 (call w).1

    -- The client of a server to which the service has been registered.
    abbrev client : UserServiceClient World G
    client = new_user_service_client World G (register_user_service_server World G srv G.new_server)

    -- The rows of the table.
    abbrev get_user_method : MethodDesc World
    get_user_method = record { method_name = "GetUser"; handler = get_user_handler World }

    abbrev get_user_by_eth_addr_method : MethodDesc World
    get_user_by_eth_addr_method = record {
      method_name = "GetUserByEthAddr";
      handler = get_user_by_eth_addr_handler World;
    }

    abbrev get_users_by_ethereum_address_method : MethodDesc World
    get_users_by_ethereum_address_method = record {
      method_name = "GetUsersByEthereumAddress";
      handler = get_users_by_ethereum_address_handler World;
    }

    pub get_user-call :
        (q : GetUserRequest) (wire : G.Wire) (opts : List G.CallOption) (w : World)
        → G.marshal get_user_request q ≡ done wire
        → client.get_user q opts w ≡ over_wire user (srv.get_user q) w
    unfolding new_user_service_client get_user_handler user_service_desc
    get_user-call q wire opts w sent_as =
        call_lem get_user_method []
          (get_user_by_eth_addr_method ∷ get_users_by_ethereum_address_method ∷ [])
          (get_user_request, q) user wire (G.static_method ∷ opts) w (srv.get_user q) refl sent_as
          (rw (lawful.unmarshal-marshal get_user_request q wire sent_as) refl)

    pub get_user_by_eth_addr-call :
        (q : GetUserByEthRequest) (wire : G.Wire) (opts : List G.CallOption) (w : World)
        → G.marshal get_user_by_eth_request q ≡ done wire
        → client.get_user_by_eth_addr q opts w
          ≡ over_wire user (srv.get_user_by_eth_addr (sent get_user_by_eth_request q)) w
    unfolding new_user_service_client get_user_by_eth_addr_handler user_service_desc
    get_user_by_eth_addr-call q wire opts w sent_as =
        call_lem get_user_by_eth_addr_method (get_user_method ∷ [])
          (get_users_by_ethereum_address_method ∷ []) (get_user_by_eth_request, q) user wire
          (G.static_method ∷ opts) w (srv.get_user_by_eth_addr (sent get_user_by_eth_request q))
          refl sent_as (rw (lawful.unmarshal-marshal get_user_by_eth_request q wire sent_as) refl)

    pub get_users_by_ethereum_address-call :
        (q : GetUsersByEthereumAddressRequest) (wire : G.Wire) (opts : List G.CallOption)
        (w : World)
        → G.marshal get_users_by_ethereum_address_request q ≡ done wire
        → client.get_users_by_ethereum_address q opts w
          ≡ over_wire get_users_by_ethereum_address_response
              (srv.get_users_by_ethereum_address (sent get_users_by_ethereum_address_request q))
              w
    unfolding new_user_service_client get_users_by_ethereum_address_handler user_service_desc
    get_users_by_ethereum_address-call q wire opts w sent_as =
        call_lem get_users_by_ethereum_address_method
          (get_user_method ∷ get_user_by_eth_addr_method ∷ []) []
          (get_users_by_ethereum_address_request, q) get_users_by_ethereum_address_response wire
          (G.static_method ∷ opts) w
          (srv.get_users_by_ethereum_address (sent get_users_by_ethereum_address_request q)) refl
          sent_as
          (rw (lawful.unmarshal-marshal get_users_by_ethereum_address_request q wire sent_as) refl)
