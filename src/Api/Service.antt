-- ===== src/Api/Service.antt =====
-- internal/api/users.go: `userService` as a server of the stubs in pkg/grpc; cmd/users-api/main.go:
-- `startGRPCServer` up to the service that the server is given.
use users_api.Base.{List, ◌≡◌}
use users_api.Go.Result.{Result, ok, err, Attempt, done, failed}
use users_api.Go.Exec.{Exec, pure, ◌>>=◌}
use users_api.Models.Env.{Env}
use users_api.Models.World.{World}
use users_api.Grpc.Messages.{
  GetUserRequest, GetUserByEthRequest, GetUsersByEthereumAddressRequest,
  GetUsersByEthereumAddressResponse, get_user_request, get_user_by_eth_request,
  get_users_by_ethereum_address_request, user, get_users_by_ethereum_address_response,
}
use users_api.Grpc.Stubs.{UserService}
use users_api.Grpc.Transport.{
  sent, sent_bytes, Grpc, new_user_service_client, register_user_service_server, IsLawful,
}
use users_api.Grpc.Calls.{
  over_wire, get_user-call, get_user_by_eth_addr-call, get_users_by_ethereum_address-call,
}
use users_api.Api.Users.{get_user_by_id, get_user_by_eth_addr, get_users_by_ethereum_address}

module _ (E : Env) where
  open E use {sql as S}

  -- The answer of `GetUsersByEthereumAddress` as a message.
  abbrev pub users_response :
      GetUsersByEthereumAddressRequest → Exec (World S) GetUsersByEthereumAddressResponse
  users_response req = do
    users ← get_users_by_ethereum_address E req.ethereum_address
    pure (record { users = users })

  -- `NewUserService`
  unfoldable pub new_user_service : UserService (World S)
  new_user_service = record {
    get_user = λ req. get_user_by_id E req.id;
    get_user_by_eth_addr = λ req. get_user_by_eth_addr E req.eth_addr;
    get_users_by_ethereum_address = users_response;
  }

  module _ (G : Grpc (World S)) where
    -- `startGRPCServer`, with what the call that listens on the port returns; an error ends the
    -- process.
    unfoldable pub start_grpc_server : Attempt (Unit {0}) → Result G.Server
    unfolding register_user_service_server new_user_service
    start_grpc_server (failed e) = err e
    start_grpc_server (done lis) =
        ok (register_user_service_server (World S) G new_user_service G.new_server)

    -- A client of the server that the program starts, over a connection that works: each of its three
    -- calls does to the state what the method of `userService` does, of the same name and with the
    -- same request, but that an empty address arrives as nil; and returns the method's answer, as it
    -- arrives, or its error as a status. So no call reaches another method, and none is lost. This
    -- holds for requests that can be written as bytes.
    pub client-service :
        IsLawful (World S) G
        → (server : G.Server) (lis : Unit {0}) (q : GetUserRequest) (r : GetUserByEthRequest)
          (s : GetUsersByEthereumAddressRequest) (q' r' s' : G.Wire) (opts : List G.CallOption)
          (w : World S)
        → start_grpc_server (done lis) ≡ ok server
        → G.marshal get_user_request q ≡ done q'
        → G.marshal get_user_by_eth_request r ≡ done r'
        → G.marshal get_users_by_ethereum_address_request s ≡ done s'
        → let client = new_user_service_client (World S) G server in
          (client.get_user q opts w ≡ over_wire (World S) G user (get_user_by_id E q.id) w)
          × (client.get_user_by_eth_addr r opts w
              ≡ over_wire (World S) G user (get_user_by_eth_addr E (sent_bytes r.eth_addr)) w)
          × (client.get_users_by_ethereum_address s opts w
              ≡ over_wire
                  (World S)
                  G
                  get_users_by_ethereum_address_response
                  (users_response (sent get_users_by_ethereum_address_request s))
                  w)
    unfolding start_grpc_server new_user_service
    client-service lawful server lis q r s q' r' s' opts w started sent_q sent_r sent_s =
        let served : register_user_service_server (World S) G new_user_service G.new_server
            ≡ server =
          cc in
        rw (← served) (
          get_user-call (World S) G lawful new_user_service q q' opts w sent_q,
          get_user_by_eth_addr-call (World S) G lawful new_user_service r r' opts w sent_r,
          get_users_by_ethereum_address-call (World S) G lawful new_user_service s s' opts w sent_s,
        )
