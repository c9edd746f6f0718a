-- ===== src/Server/Messages.antt =====
-- The unary RPCs on messages of app/server/grpc_server.go: SendMessage, SearchMessages, DeleteMessage,
-- EditMessage, MarkMessageRead, GetUnreadCount. Each is its reply and the calls that it makes.
pub mod Replies
use chat_service.Server.Incoming.{persist_message}
use chat_service.RoomId.{normalize_room_id}
use chat_service.Server.Calls.{
  store_mark_read, when_some, only, hub_broadcast, nothing, invalid_argument, unimplemented,
  internal, Outcome, MessageStore, Reply, Server,
}
use chat_service.Prelude.{
  false, ◌∷◌, none, true, some, ◌||◌, pos, err, [], if◌then◌else◌, ok, List, Bool, Result, Option,
  ℤ,
}
use chat_service.Proto.{
  sent, edit, delete, message, zero_server_message, ServerMessage, MessageType,
}
use chat_service.Text.{is_empty, Bytes}

pub record SendMessageRequest : Type 0 where
  pub conversation_id : Bytes
  pub sender_id : Bytes
  pub content : Bytes
  pub message_type : MessageType
  pub media_key : Bytes
  pub media_name : Bytes
  pub media_size_bytes : ℤ
  pub media_mime_type : Bytes
  pub reply_to_message_id : Bytes

pub record DeleteMessageRequest : Type 0 where
  pub message_id : Bytes
  pub user_id : Bytes
  pub conversation_id : Bytes

pub record EditMessageRequest : Type 0 where
  pub message_id : Bytes
  pub user_id : Bytes
  pub new_content : Bytes
  pub conversation_id : Bytes

pub record MarkMessageReadRequest : Type 0 where
  pub conversation_id : Bytes
  pub user_id : Bytes
  pub message_id : Bytes

pub record GetUnreadCountRequest : Type 0 where
  pub user_id : Bytes
  pub conversation_id : Bytes

pub record SearchMessagesRequest : Type 0 where
  pub conversation_id : Bytes
  pub query : Bytes
  pub limit : ℤ

pub sent_message : Server → SendMessageRequest → ServerMessage
sent_message s req = record zero_server_message {
  room_id = normalize_room_id req.conversation_id;
  user_id = req.sender_id;
  message_id = s.new_id;
  text = req.content;
  sent_at_unix_ms = s.now;
  delivered_at_unix_ms = s.now;
  type = req.message_type;
  media_key = req.media_key;
  media_name = req.media_name;
  media_size_bytes = req.media_size_bytes;
  media_mime_type = req.media_mime_type;
  reply_to_message_id = req.reply_to_message_id;
  event_type = message;
  status = sent;
}

-- SendMessage
pub send_message : Server → SendMessageRequest → Reply ServerMessage × Outcome
unfolding sent_message
send_message s req =
    let sm = sent_message s req in
    if is_empty (normalize_room_id req.conversation_id) || is_empty req.sender_id
    then (err invalid_argument, nothing)
    else (ok sm, record { calls = hub_broadcast sm true ∷ []; background = persist_message s sm })

search_result : Option MessageStore → SearchMessagesRequest → Reply (List ServerMessage)
search_result none req = ok []
search_result (some st) req = elim (st.search_messages req.conversation_id req.query req.limit) [
  | ok found ↦ ok found
  | err e ↦ err internal
]

-- SearchMessages
pub search_messages : Server → SearchMessagesRequest → Reply (List ServerMessage)
unfolding search_result
search_messages s req =
    if is_empty req.conversation_id || is_empty req.query
    then err invalid_argument
    else search_result s.msg_repo req

deleted_message : DeleteMessageRequest → ServerMessage
deleted_message req = record zero_server_message {
  room_id = normalize_room_id req.conversation_id;
  user_id = req.user_id;
  message_id = req.message_id;
  event_type = delete;
  is_deleted = true;
}

-- What follows the answer of SoftDeleteMessageByOwner.
deletion_reply : DeleteMessageRequest → Result Bytes Bool → Reply Bool × Outcome
unfolding deleted_message
deletion_reply req (err e) = (err internal, nothing)
deletion_reply req (ok false) = (ok false, nothing)
deletion_reply req (ok true) = (
  ok true,
  if is_empty (normalize_room_id req.conversation_id)
      then nothing
      else only (hub_broadcast (deleted_message req) true),
)

delete_in : Option MessageStore → DeleteMessageRequest → Reply Bool × Outcome
unfolding deletion_reply
delete_in none req = (err unimplemented, nothing)
delete_in (some st) req =
    deletion_reply req (st.soft_delete_message_by_owner req.message_id req.user_id)

-- DeleteMessage
pub delete_message : Server → DeleteMessageRequest → Reply Bool × Outcome
unfolding delete_in
delete_message s req =
    if is_empty req.message_id || is_empty req.user_id
    then (err invalid_argument, nothing)
    else delete_in s.msg_repo req

edited_message : ℤ → EditMessageRequest → ServerMessage
edited_message at req = record zero_server_message {
  room_id = normalize_room_id req.conversation_id;
  user_id = req.user_id;
  message_id = req.message_id;
  text = req.new_content;
  event_type = edit;
  edited_at_unix_ms = at;
}

edition_reply : EditMessageRequest → Result Bytes ℤ → Reply ServerMessage × Outcome
unfolding edited_message
edition_reply req (err e) = (err internal, nothing)
edition_reply req (ok at) = (
  ok (edited_message at req),
  if is_empty (normalize_room_id req.conversation_id)
      then nothing
      else only (hub_broadcast (edited_message at req) true),
)

edit_in : Option MessageStore → EditMessageRequest → Reply ServerMessage × Outcome
unfolding edition_reply
edit_in none req = (err unimplemented, nothing)
edit_in (some st) req =
    edition_reply req (st.edit_message req.message_id req.user_id req.new_content)

-- EditMessage
pub edit_message : Server → EditMessageRequest → Reply ServerMessage × Outcome
unfolding edit_in
edit_message s req =
    if is_empty req.message_id || is_empty req.user_id || is_empty req.new_content
    then (err invalid_argument, nothing)
    else edit_in s.msg_repo req

-- MarkMessageRead, which drops the error of the store
pub mark_message_read : Server → MarkMessageReadRequest → Reply Bool × Outcome
mark_message_read s req =
    if is_empty req.conversation_id || is_empty req.user_id
    then (err invalid_argument, nothing)
    else (
      ok true,
      record {
        calls =
            when_some s.msg_repo
              (store_mark_read req.conversation_id req.user_id req.message_id ∷ []);
        background = [];
      },
    )

unread_in : Option MessageStore → GetUnreadCountRequest → Reply ℤ
unread_in none req = ok (pos 0)
unread_in (some st) req = elim (st.get_unread_count req.user_id req.conversation_id) [
  | ok n ↦ ok n
  | err e ↦ err internal
]

-- GetUnreadCount
pub get_unread_count : Server → GetUnreadCountRequest → Reply ℤ
unfolding unread_in
get_unread_count s req =
    if is_empty req.user_id then err invalid_argument else unread_in s.msg_repo req
