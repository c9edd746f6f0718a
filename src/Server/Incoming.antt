-- ===== src/Server/Incoming.antt =====
-- `processIncoming`, `toServerMsg` and `persistMessage` of app/server/grpc_server.go.
pub mod Broadcasts
use chat_service.Text.Trim.{trim_space}
use chat_service.RoomId.{normalize_room_id}
use chat_service.Server.Calls.{
  store_read_receipt, rooms_last_activity, rooms_read_receipt, when, store_save, zero_time,
  hub_broadcast, when_some, nothing, only, Call, MessageStore, Outcome, Server,
}
use chat_service.Proto.{
  read, typing_stop, edit, reaction, read_receipt, typing_start, delete, message, sent,
  zero_server_message, EventType, ClientMessage, ServerMessage,
}
use chat_service.Prelude.{
  take, length, ltb, none, true, false, ◌++◌, some, eqb_ℤ, ◌&&◌, ok, err, Bool, not, Result, List,
  if◌then◌else◌, [], Option, ◌∷◌, ℤ,
}
use chat_service.Text.{is_empty, Bytes}

-- toServerMsg
pub to_server_msg : ℤ → ClientMessage → ServerMessage
to_server_msg now m = record zero_server_message {
  room_id = normalize_room_id m.room_id;
  user_id = m.user_id;
  message_id = m.message_id;
  text = m.text;
  sent_at_unix_ms = m.sent_at_unix_ms;
  delivered_at_unix_ms = now;
  type = m.type;
  media_key = m.media_key;
  media_name = m.media_name;
  media_size_bytes = m.media_size_bytes;
  media_mime_type = m.media_mime_type;
  event_type = message;
  reply_to_message_id = m.reply_to_message_id;
}

-- "📎 " in UTF-8
abbrev pub paper_clip : Bytes
paper_clip = 0xf0 ∷ 0x9f ∷ 0x93 ∷ 0x8e ∷ 32 ∷ []

pub preview : ServerMessage → Bytes
preview m =
    let text =
      if is_empty m.text && not (is_empty m.media_name)
      then paper_clip ++ m.media_name
      else m.text in
    if ltb 120 (length text) then take 120 text else text

-- The read cursor of the sender, where the message has one.
unfoldable pub sender_receipts : Server → ServerMessage → List Call
sender_receipts s m =
    let at = if eqb_ℤ m.sent_at_unix_ms zero_time then s.now else m.sent_at_unix_ms in
    when (not (is_empty m.user_id)) (
      rooms_read_receipt m.room_id m.user_id m.message_id at
      ∷ when_some s.msg_repo (store_read_receipt m.room_id m.user_id m.message_id at ∷ []))

-- The goroutine of persistMessage
unfoldable pub persist_message : Server → ServerMessage → List Call
unfolding preview sender_receipts
persist_message s m =
    when_some s.msg_repo (store_save m ∷ [])
    ++ when s.has_pg_rooms (
        rooms_last_activity m.room_id m.message_id m.user_id (preview m) m.sent_at_unix_ms
        ∷ sender_receipts s m)

on_typing : ClientMessage → Outcome
on_typing m = only (
    hub_broadcast
      (record zero_server_message {
        room_id = normalize_room_id m.room_id;
        user_id = m.user_id;
        event_type = m.event_type;
      })
      false)

on_read_receipt : Server → ClientMessage → Outcome
on_read_receipt s m =
    let room = normalize_room_id m.room_id in
    if is_empty m.message_id then nothing else record {
      calls =
          hub_broadcast
            (record zero_server_message {
              room_id = room;
              user_id = m.user_id;
              message_id = m.message_id;
              event_type = read_receipt;
              status = read;
            })
            false
          ∷ [];
      background =
          when_some s.msg_repo (store_read_receipt room m.user_id m.message_id s.now ∷ [])
          ++ when s.has_pg_rooms (rooms_read_receipt room m.user_id m.message_id s.now ∷ []);
    }

on_reaction : ClientMessage → Outcome
on_reaction m =
    if not (is_empty m.message_id) && not (is_empty m.reaction_emoji)
    then only (
        hub_broadcast
          (record zero_server_message {
            room_id = normalize_room_id m.room_id;
            user_id = m.user_id;
            message_id = m.message_id;
            event_type = reaction;
            reaction_emoji = m.reaction_emoji;
          })
          true)
    else nothing

abbrev deletion : ClientMessage → ServerMessage
deletion m = record zero_server_message {
  room_id = normalize_room_id m.room_id;
  user_id = m.user_id;
  message_id = m.message_id;
  event_type = delete;
  is_deleted = true;
}

unfoldable pub after_delete : ClientMessage → Result Bytes Bool → Outcome
after_delete m (err e) = nothing
after_delete m (ok false) = nothing
after_delete m (ok true) = only (hub_broadcast (deletion m) true)

unfoldable pub on_delete : Option MessageStore → ClientMessage → Outcome
unfolding after_delete
on_delete none m = nothing
on_delete (some st) m =
    if is_empty m.message_id
    then nothing
    else after_delete m (st.soft_delete_message_by_owner m.message_id m.user_id)

edition : ℤ → ClientMessage → ServerMessage
edition at m = record zero_server_message {
  room_id = normalize_room_id m.room_id;
  user_id = m.user_id;
  message_id = m.message_id;
  text = trim_space m.text;
  event_type = edit;
  edited_at_unix_ms = at;
}

unfoldable pub after_edit : ClientMessage → Result Bytes ℤ → Outcome
unfolding edition
after_edit m (err e) = nothing
after_edit m (ok at) = only (hub_broadcast (edition at m) true)

-- The result of EditMessage, and the time of the edit where there is no store.
unfoldable pub edit_result : Server → Option MessageStore → ClientMessage → Result Bytes ℤ
edit_result s none m = ok s.now
edit_result s (some st) m = st.edit_message m.message_id m.user_id (trim_space m.text)

unfoldable pub on_edit : Server → ClientMessage → Outcome
unfolding after_edit edit_result
on_edit s m =
    if not (is_empty m.message_id) && not (is_empty (trim_space m.text))
    then after_edit m (edit_result s s.msg_repo m)
    else nothing

-- Every event that is none of the others, an unknown one too, is a chat message.
on_message : Server → ClientMessage → Outcome
unfolding persist_message to_server_msg
on_message s m =
    let sm = record (to_server_msg s.now m) { status = sent } in
    if is_empty m.text && is_empty m.media_key
    then nothing
    else record { calls = hub_broadcast sm true ∷ []; background = persist_message s sm }

unfoldable pub on_event : EventType → Server → ClientMessage → Outcome
unfolding on_typing on_read_receipt on_reaction on_delete on_edit on_message
on_event typing_start s m = on_typing m
on_event typing_stop s m = on_typing m
on_event read_receipt s m = on_read_receipt s m
on_event reaction s m = on_reaction m
on_event delete s m = on_delete s.msg_repo m
on_event edit s m = on_edit s m
on_event _ s m = on_message s m

-- processIncoming
unfoldable pub process_incoming : Server → ClientMessage → Outcome
unfolding on_event
process_incoming s m = on_event m.event_type s m
