-- ===== src/Server/Chat.antt =====
-- `Chat` of app/server/grpc_server.go before its receive loop and after it, over the hub of the process
-- and its presence store, `LocalPresenceStore`. What it does in between is in Server.Stream and
-- Server.Incoming.
pub mod Entered
pub mod Left
pub mod Tests
use chat_service.Prelude.{
  false, ◌||◌, ◌&&◌, not, true, err, ok, none, some, pos, if◌then◌else◌, Bool, ℕ, ℤ, Result, Option,
}
use chat_service.Text.{is_empty, Bytes}
use chat_service.Broker.{Broker, Codec}
use chat_service.Chan.{Panic}
use chat_service.Hub.{Hub, at_capacity, broadcast, new_client, register, unregister, update}
use chat_service.Presence.{LocalPresenceStore, set_online}
use chat_service.Proto.{ClientMessage, ServerMessage, presence, message, zero_server_message}
use chat_service.RoomId.{normalize_room_id}
use chat_service.Server.Calls.{Code, invalid_argument, resource_exhausted}
use chat_service.Server.Uploads.{Storage}

-- The error that Chat returns at once: one of its own, or that of the first Recv.
pub data Refused : Type 0 where
  status_error : Code → Refused
  recv_failed : Refused

-- The event that tells a room whether a user is online.
abbrev pub presence_event : Bytes → Bytes → Bool → ℤ → ServerMessage
presence_event user room online seen = record zero_server_message {
  room_id = room;
  user_id = user;
  event_type = presence;
  is_online = online;
  last_seen_unix_ms = seen;
}

module _ {Data : Type 0} (b : Broker Data) (codec : Codec Data) where
  pub record Pod : Type 0 where
    pub hub : Hub b
    pub presence : LocalPresenceStore

  unfoldable pub announce : ServerMessage → Pod → Result Panic Pod
  announce m p = elim (broadcast b codec m true p.hub) [
    | err e ↦ err e
    | ok h ↦ ok (record p { hub = h })
  ]

  -- From NewClient to the broadcast that tells the room of the user; `c` is the new client.
  unfoldable pub enter : ℕ → ℤ → ClientMessage → Pod → Result Panic Pod
  unfolding announce set_online
  enter c now first p =
      let room = normalize_room_id first.room_id in
      let h = record (p.hub) { clients = update p.hub.clients c (new_client first.user_id room) } in
      announce (presence_event first.user_id room true (pos 0))
        (record p { hub = register b c h; presence = set_online now first.user_id true p.presence })

  unfoldable pub with_first : ℕ → ℤ → Option ClientMessage → Pod → Result Refused (Result Panic Pod)
  unfolding enter
  with_first c now none p = err recv_failed
  with_first c now (some first) p =
      if is_empty first.user_id || is_empty first.room_id
      then err (status_error invalid_argument)
      else ok (enter c now first p)

  -- Chat up to its receive loop, given what the first Recv returns.
  unfoldable pub open_chat : ℕ → ℤ → Option ClientMessage → Pod → Result Refused (Result Panic Pod)
  unfolding with_first
  open_chat c now received p =
      if at_capacity b p.hub
      then err (status_error resource_exhausted)
      else with_first c now received p

  -- The deferred function, which asks twice for the time.
  unfoldable pub close_chat : ℕ → Bytes → Bytes → ℤ → ℤ → Pod → Result Panic Pod
  unfolding announce set_online
  close_chat c user room seen now p = elim (unregister b c p.hub) [
    | err e ↦ err e
    | ok h ↦
        announce (presence_event user room false now)
          (record p { hub = h; presence = set_online seen user false p.presence })
  ]

-- What the sender goroutine makes of a message before it sends it: one with media gets a link.
unfoldable pub with_media_url : Option Storage → ServerMessage → ServerMessage
with_media_url none m = m
with_media_url (some st) m =
    if not (is_empty m.media_key)
    then elim m.event_type [
      | message ↦ elim (st.get_presigned_url m.media_key) [
        | ok found ↦ record m { media_url = found.0 }
        | err e ↦ m
      ]
      | _ ↦ m
    ]
    else m
