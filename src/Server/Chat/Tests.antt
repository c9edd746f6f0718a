-- ===== src/Server/Chat/Tests.antt =====
-- A call of Bob that begins and ends while Alice is connected, and the results at it.
use chat_service.Hub.Shard.{shard_index}
use chat_service.Text.Assoc.{insert, lookup}
use chat_service.Prelude.{refl, ◌≡◌, ◌∷◌, [], true, false, ok, err, some, map, pos, Result, ℕ, List}
use chat_service.Text.{same, Bytes, lit}
use chat_service.Broker.{Broker, Codec, noop}
use chat_service.Chan.{try_send, Panic}
use chat_service.Hub.{
  add_client, broadcast, Hub, Client, at_capacity, delete_client, has_client, new_client,
  new_hub_with_limit, register,
}
use chat_service.Hub.Invariant.{Tracks}
use chat_service.Hub.Run.{Run, Run-Tracks, connect, start}
use chat_service.Hub.View.{closed_client}
use chat_service.Presence.{get}
use chat_service.Proto.{ClientMessage, ServerMessage, message, text}
use chat_service.RoomId.{normalize_room_id}
use chat_service.Server.Chat.{Pod, Refused, close_chat, open_chat, presence_event}
use chat_service.Server.Chat.Entered.{after_event, open_chat-Tracks, with_client}
use chat_service.Server.Chat.Left.{close_chat-Tracks}

abbrev room_x : Bytes
room_x = lit "group:x"

abbrev plain : Codec ServerMessage
plain = record { marshal = λ m. m; unmarshal = λ m. some m; unmarshal-marshal = λ m. refl }

abbrev quiet : Broker ServerMessage
quiet = noop

abbrev store : ℕ → Client
store c = new_client (lit "alice") room_x

abbrev hub0 : Hub quiet
hub0 = new_hub_with_limit quiet (record { made = 0; cancelled = [] }) store (pos 2)

abbrev hub1 : Hub quiet
hub1 = register quiet 0 hub0

run1 : Run quiet plain (0 ∷ []) hub1
unfolding has_client new_hub_with_limit
run1 = connect 0 (start (record { made = 0; cancelled = [] }) store (pos 2)) refl refl

hub1-Tracks : Tracks quiet (0 ∷ []) hub1
hub1-Tracks = Run-Tracks quiet plain run1

abbrev pod : Pod quiet plain
pod = record { hub = hub1; presence = [] }

abbrev first : ClientMessage
first = record {
  user_id = lit "bob";
  room_id = room_x;
  message_id = [];
  text = [];
  sent_at_unix_ms = pos 0;
  type = text;
  media_key = [];
  media_name = [];
  media_size_bytes = pos 0;
  media_mime_type = [];
  event_type = message;
  reply_to_message_id = [];
  reaction_emoji = [];
}

below : at_capacity quiet hub1 ≡ false
unfolding at_capacity register lookup new_hub_with_limit
below = refl

open_chat-Tracks_example :
    (q : Pod quiet plain) × (open_chat quiet plain 1 (pos 5) (some first) pod ≡ ok (ok q))
    × Tracks quiet (1 ∷ 0 ∷ []) q.hub
    × ((d : ℕ)
        → q.hub.clients d
          ≡ after_event quiet plain
              (1 ∷ 0 ∷ [])
              (presence_event (lit "bob") (normalize_room_id room_x) true (pos 0))
              (with_client quiet plain 1 (lit "bob") (normalize_room_id room_x) hub1).clients
              d)
    × (map (λ info. info.is_online) (get q.presence (lit "bob" ∷ [])) ≡ true ∷ [])
unfolding has_client
open_chat-Tracks_example =
    open_chat-Tracks quiet plain (0 ∷ []) 1 (pos 5) first pod hub1-Tracks refl below refl refl

close_chat-Tracks_example :
    (q : Pod quiet plain) × (close_chat quiet plain 0 (lit "alice") room_x (pos 7) (pos 7) pod
      ≡ ok q)
    × Tracks quiet [] q.hub
    × ((d : ℕ)
        → q.hub.clients d
          ≡ after_event quiet plain []
              (presence_event (lit "alice") room_x false (pos 7))
              (closed_client quiet 0 hub1.clients)
              d)
    × (map (λ info. info.is_online) (get q.presence (lit "alice" ∷ [])) ≡ false ∷ [])
unfolding has_client register delete_client lookup new_hub_with_limit
close_chat-Tracks_example =
    close_chat-Tracks quiet plain (0 ∷ []) 0 (lit "alice") (pos 7) (pos 7) pod hub1-Tracks refl

-- What Alice's channel holds after Bob has come.
abbrev heard : Result Refused (Result Panic (Pod quiet plain)) → List ServerMessage
heard (ok (ok p)) = (p.hub.clients 0).send.buffer
heard (ok (err e)) = []
heard (err e) = []

alice_hears :
    heard (open_chat quiet plain 1 (pos 5) (some first) pod)
    ≡ presence_event (lit "bob") room_x true (pos 0) ∷ []
unfolding open_chat at_capacity register lookup new_hub_with_limit broadcast shard_index
    normalize_room_id insert same add_client try_send
alice_hears = refl
