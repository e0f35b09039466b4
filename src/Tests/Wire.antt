-- ===== src/Tests/Wire.antt =====
-- A connection to a server in the same process, with the laws of the package grpc, and a client's call
-- over it.
use text.Mathlib.TextLemmas.{append_cancel_left}
use mathlib.Core.Path.{subst}
use mathlib.Core.Bool.{false≢true}
use users_api.Base.{
  String, Bool, true, false, not, ◌&&◌, Option, none, some, List, [], ◌∷◌, ◌++◌, ◌<>◌, ◌≡◌, refl,
  sym, ◌∙◌, map, any, inl, inr, arith, Bool-cases, ◌==◌, ==→≡, ==_refl, nat_eq, string_eq,
  if◌then◌else◌,
}
use users_api.Go.Error.{Error, message, status_error, error_text}
use users_api.Go.Result.{Attempt, done, failed, attempt}
use users_api.Go.Exec.{Exec, raise, lift, wrapping, ◌>>=◌}
use users_api.Models.World.{World}
use users_api.Grpc.Messages.{
  Kind, get_user_request, get_user_by_eth_request, get_users_by_ethereum_address_request, user,
  get_users_by_ethereum_address_response, Message, Any,
}
use users_api.Grpc.Stubs.{UserService, MethodDesc, ServiceDesc}
use users_api.Grpc.Transport.{
  sent, Grpc, new_user_service_client, register_user_service_server, distinct, IsLawful,
}
use users_api.Grpc.Calls.{over_wire}
use users_api.Api.Users.{get_user_by_id, get_user_by_eth_addr}
use users_api.Api.Service.{users_response, new_user_service, start_grpc_server, client-service}
use users_api.Tests.Memory.{memory}
use users_api.Tests.Fixture.{home, env, held_world}

abbrev State : Type 0
State = World memory

-- A message of the asked type, without its empty fields.
abbrev read_as : (k : Kind) → Any → Attempt (Message k)
read_as get_user_request (get_user_request, q) = done (sent get_user_request q)
read_as get_user_by_eth_request (get_user_by_eth_request, q) = done (sent get_user_by_eth_request q)
read_as get_users_by_ethereum_address_request (get_users_by_ethereum_address_request, q) =
    done (sent get_users_by_ethereum_address_request q)
read_as user (user, u) = done (sent user u)
read_as get_users_by_ethereum_address_response (get_users_by_ethereum_address_response, r) =
    done (sent get_users_by_ethereum_address_response r)
read_as k m = failed (message "wrong type")

read_as_same : (k : Kind) (m : Message k) → read_as k (k, m) ≡ done (sent k m)
read_as_same get_user_request m = refl
read_as_same get_user_by_eth_request m = refl
read_as_same get_users_by_ethereum_address_request m = refl
read_as_same user m = refl
read_as_same get_users_by_ethereum_address_response m = refl

-- codes.Unknown, but for a status.
abbrev status_of : Error → Error
status_of (status_error code text) = status_error code text
status_of e = status_error 2 (error_text e)

abbrev send_back : (out : Kind) → Exec State Any → Exec State (Message out)
send_back out handled = do reply ← wrapping status_of handled; lift (attempt (read_as out reply))

abbrev full_name : String → MethodDesc State → String
full_name service m = "/" <> (service <> ("/" <> m.method_name))

-- The first method with the name.
route :
    String
    → String
    → UserService State
    → Any
    → (out : Kind) → List (MethodDesc State)
    → Exec State (Message out)
route full service srv req out [] = raise (status_error 12 "unknown method")
route full service srv req out (m ∷ ms) =
    if full_name service m == full
    then send_back out (m.handler srv (λ k. read_as k req) none)
    else route full service srv req out ms

abbrev Registered : Type 0
Registered = Option (ServiceDesc State × UserService State)

invoke_on : Registered → String → Any → (out : Kind) → Exec State (Message out)
invoke_on none full req out = raise (status_error 14 "no service")
invoke_on (some (desc, srv)) full req out = route full desc.service_name srv req out desc.methods

abbrev loopback : Grpc State
loopback = record {
  Wire = Any;
  Server = Registered;
  CallOption = Unit {0};
  static_method = tt;
  marshal = λ k m. done (k, m);
  unmarshal = read_as;
  to_status = status_of;
  new_server = none;
  register_service = λ desc srv s. some (desc, srv);
  invoke = λ s full req out opts. invoke_on s full req out;
}

any_later :
    (p : String → Bool) (m : MethodDesc State) (before after : List (MethodDesc State))
    → p m.method_name ≡ true
    → any p (map (λ (x : MethodDesc State). x.method_name) (before ++ (m ∷ after))) ≡ true
any_later p m [] after h = ground arith
any_later p m (b ∷ before) after h = ground (arith, any_later p m before after h)

both : (x y : Bool) → (not x && y) ≡ true → (x ≡ false) × (y ≡ true)
both x y h = ground arith

-- A later method has another name than the first.
name_differs :
    (service : String) (b m : MethodDesc State) (before after : List (MethodDesc State))
    → any
        (λ x. x == b.method_name)
        (map (λ (x : MethodDesc State). x.method_name) (before ++ (m ∷ after)))
      ≡ false
    → (full_name service b == full_name service m) ≡ false
name_differs service b m before after h =
    elim (Bool-cases (full_name service b == full_name service m)) [
      | inr differ ↦ differ
      | inl same ↦
          let whole = ==→≡ (full_name service b) (full_name service m) same in
          let behind_slash =
            append_cancel_left "/" (service <> ("/" <> b.method_name))
              (service <> ("/" <> m.method_name)) whole in
          let behind_service =
            append_cancel_left service ("/" <> b.method_name) ("/" <> m.method_name) behind_slash in
          let name = append_cancel_left "/" b.method_name m.method_name behind_service in
          let found =
            any_later (λ x. x == b.method_name) m before after (rw name (==_refl m.method_name)) in
          absurd (false≢true (sym h ∙ found))
    ]

route_lem :
    (service : String) (srv : UserService State) (req : Any) (out : Kind) (m : MethodDesc State)
    (before after : List (MethodDesc State)) (w : State)
    → distinct State loopback
        (map (λ (x : MethodDesc State). x.method_name) (before ++ (m ∷ after)))
      ≡ true
    → route (full_name service m) service srv req out (before ++ (m ∷ after)) w
      ≡ send_back out (m.handler srv (λ k. read_as k req) none) w
unfolding route
route_lem service srv req out m [] after w h = rw (==_refl (full_name service m)) refl
route_lem service srv req out m (b ∷ before) after w h =
    let (first, rest) = both _ _ h in
    rw (name_differs service b m before after first)
      (route_lem service srv req out m before after w rest)

done-injective : (x y : Any) → done x ≡ done y → x ≡ y
done-injective x y e = cc

delivers_lem :
    (service : String) (srv : UserService State) (req : Any) (out : Kind) (m : MethodDesc State)
    (methods before after : List (MethodDesc State)) (wire : Any) (w : State)
    → methods ≡ before ++ (m ∷ after)
    → distinct State loopback (map (λ (x : MethodDesc State). x.method_name) methods) ≡ true
    → req ≡ wire
    → route (full_name service m) service srv req out methods w
      ≡ send_back out (m.handler srv (λ k. read_as k wire) none) w
delivers_lem service srv req out m methods before after wire w at unique sent_as =
    rw (at, ← sent_as) (route_lem service srv req out m before after w (rw at at unique))

loopback-IsLawful : IsLawful State loopback
unfolding invoke_on
loopback-IsLawful = record {
  unmarshal-marshal = λ k m wire e.
      subst (λ x. read_as k x ≡ done (sent k m)) (done-injective (k, m) wire e) (read_as_same k m);
  to_status-status = λ code text. refl;
  delivers = λ desc srv method before after req wire out opts w at unique sent_as.
      delivers_lem desc.service_name srv req out method desc.methods before after wire w at unique
        (done-injective req wire sent_as);
}

-- The server that the program starts, reached in the same process.
abbrev served : Registered
served = register_user_service_server State loopback (new_user_service env) none

client-service_example :
    let client = new_user_service_client State loopback served in
    (client.get_user (record { id = "u1" }) [] held_world
      ≡ over_wire State loopback user (get_user_by_id env "u1") held_world)
    × (client.get_user_by_eth_addr (record { eth_addr = some home }) [] held_world
        ≡ over_wire State loopback user (get_user_by_eth_addr env (some home)) held_world)
    × (client.get_users_by_ethereum_address (record { ethereum_address = some [] }) [] held_world
        ≡ over_wire State loopback get_users_by_ethereum_address_response
            (users_response env (record { ethereum_address = none }))
            held_world)
unfolding start_grpc_server
client-service_example =
    client-service env loopback loopback-IsLawful served tt (record { id = "u1" })
      (record { eth_addr = some home }) (record { ethereum_address = some [] })
      (get_user_request, record { id = "u1" })
      (get_user_by_eth_request, record { eth_addr = some home })
      (get_users_by_ethereum_address_request, record { ethereum_address = some [] }) [] held_world
      refl refl refl refl
