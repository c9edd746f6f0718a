-- ===== src/Hub/Tests.antt =====
-- A hub with two clients in one room and one in another, and the theorems about it.
use chat_service.Hub.Delivery.{offered}
use chat_service.Text.Assoc.{insert, lookup}
use chat_service.Chan.{try_send, Panic}
use chat_service.Hub.Shard.{shard_index}
use chat_service.Hub.Invariant.{Tracks}
use chat_service.Hub.Run.{
  broadcast-Tracks, published, Run-no_panic, hears, Run-at_capacity, Run-Tracks, start, connect,
  Run,
}
use chat_service.Proto.{zero_server_message, ServerMessage}
use chat_service.Hub.{
  deliver, broadcast_local, new_client, at_capacity, room_at, unregister, forward_from_broker,
  broadcast, add_client, put_room, register_in, register, Client, new_hub_with_limit, has_client,
  Hub,
}
use chat_service.Broker.{noop, NoopState, Broker, Codec}
use chat_service.Prelude.{
  Bool, err, List, ok, true, Result, ◌==◌, if◌then◌else◌, ◌≡◌, ◌∷◌, refl, pos, [], some, ℕ,
}
use chat_service.Text.{same, lit, Bytes}

abbrev room_x : Bytes
room_x = lit "group:x"

abbrev store : ℕ → Client
store c =
    if c == 0
    then new_client (lit "alice") room_x
    else if c == 1
    then new_client (lit "bob") room_x
    else new_client (lit "carol") (lit "group:y")

-- The messages travel as they are.
abbrev plain : Codec ServerMessage
plain = record { marshal = λ m. m; unmarshal = λ m. some m; unmarshal-marshal = λ m. refl }

abbrev quiet : Broker ServerMessage
quiet = noop

abbrev no_state : NoopState
no_state = record { made = 0; cancelled = [] }

abbrev hub0 : Hub quiet
hub0 = new_hub_with_limit quiet no_state store (pos 2)

abbrev hub2 : Hub quiet
hub2 = register quiet 1 (register quiet 0 hub0)

abbrev hello : ServerMessage
hello = record zero_server_message { room_id = room_x; user_id = lit "alice"; text = lit "hi" }

run2 : Run quiet plain (1 ∷ 0 ∷ []) hub2
unfolding has_client new_hub_with_limit register register_in put_room lookup
run2 = connect 1 (connect 0 (start no_state store (pos 2)) refl refl) refl refl

-- What alice's channel holds after a broadcast, and after its echo.
abbrev received : Result Panic (Hub quiet) → List ServerMessage
received (ok h) = (h.clients 0).send.buffer
received (err p) = []

heard_once : received (broadcast quiet plain hello true hub2) ≡ hello ∷ []
unfolding broadcast broadcast_local deliver room_at try_send register register_in put_room
    new_hub_with_limit shard_index lookup insert same add_client
heard_once = refl

abbrev and_then :
    Result Panic (Hub quiet) → (Hub quiet → Result Panic (Hub quiet)) → Result Panic (Hub quiet)
and_then (ok h) f = f h
and_then (err p) f = err p

heard_twice :
    received (
      and_then
        (broadcast quiet plain hello true hub2)
        (forward_from_broker quiet plain (pos 7) hello))
    ≡ hello ∷ record hello { delivered_at_unix_ms = pos 7 } ∷ []
unfolding forward_from_broker broadcast broadcast_local deliver room_at try_send register
    register_in put_room new_hub_with_limit shard_index lookup insert same add_client
heard_twice = refl

hub2-Tracks : Tracks quiet (1 ∷ 0 ∷ []) hub2
hub2-Tracks = Run-Tracks quiet plain run2

broadcast-Tracks_example :
    (h' : Hub quiet) × (broadcast quiet plain hello true hub2 ≡ ok h')
    × Tracks quiet (1 ∷ 0 ∷ []) h'
    × ((c : ℕ)
        → h'.clients c ≡ (
            if hears quiet plain room_x (1 ∷ 0 ∷ []) hub2 c
            then offered hello (hub2.clients c)
            else hub2.clients c))
    × (h'.broker ≡ published quiet plain true hello hub2)
broadcast-Tracks_example = broadcast-Tracks quiet plain (1 ∷ 0 ∷ []) hello true hub2 hub2-Tracks

Run-Tracks_example : Tracks quiet (1 ∷ 0 ∷ []) hub2
Run-Tracks_example = Run-Tracks quiet plain run2

Run-no_panic_example :
    ((c : ℕ)
      → has_client (1 ∷ 0 ∷ []) c ≡ true
      → (h' : Hub quiet) × (unregister quiet c hub2 ≡ ok h'))
    × ((m : ServerMessage) (publish : Bool)
        → (h' : Hub quiet) × (broadcast quiet plain m publish hub2 ≡ ok h'))
Run-no_panic_example = Run-no_panic quiet plain run2

max_hub2 : hub2.max_conns ≡ pos 2
unfolding register register_in put_room new_hub_with_limit room_at shard_index lookup insert same
max_hub2 = refl

Run-at_capacity_example : at_capacity quiet hub2 ≡ true
Run-at_capacity_example = Run-at_capacity quiet plain 2 run2 max_hub2
