-- ===== src/Proto.antt =====
-- The messages of proto/chat.proto, as app/pb/chat.pb.go declares them. A field that a literal of
-- the source leaves out has the zero value of its type; int64 values are integers, times in
-- milliseconds of the Unix clock.
use chat_service.Prelude.{false, pos, Bool, [], ℤ}
use chat_service.Text.{Bytes}

pub data MessageType : Type 0 where
  text image video audio file : MessageType
  other_message_type : ℤ → MessageType

pub data RoomType : Type 0 where
  dm group : RoomType
  other_room_type : ℤ → RoomType

-- An int32 that names no constant of the enumeration is kept as it is.
pub data EventType : Type 0 where
  message typing_start typing_stop read_receipt reaction delete presence edit : EventType
  other_event : ℤ → EventType

pub data MessageStatus : Type 0 where
  sending sent delivered read : MessageStatus

pub record ClientMessage : Type 0 where
  pub room_id : Bytes
  pub user_id : Bytes
  pub message_id : Bytes
  pub text : Bytes
  pub sent_at_unix_ms : ℤ
  pub type : MessageType
  pub media_key : Bytes
  pub media_name : Bytes
  pub media_size_bytes : ℤ
  pub media_mime_type : Bytes
  pub event_type : EventType
  pub reply_to_message_id : Bytes
  pub reaction_emoji : Bytes

pub record ServerMessage : Type 0 where
  pub room_id : Bytes
  pub user_id : Bytes
  pub message_id : Bytes
  pub text : Bytes
  pub sent_at_unix_ms : ℤ
  pub delivered_at_unix_ms : ℤ
  pub type : MessageType
  pub media_key : Bytes
  pub media_name : Bytes
  pub media_size_bytes : ℤ
  pub media_mime_type : Bytes
  pub media_url : Bytes
  pub event_type : EventType
  pub reply_to_message_id : Bytes
  pub reaction_emoji : Bytes
  pub is_deleted : Bool
  pub edited_at_unix_ms : ℤ
  pub status : MessageStatus
  pub is_online : Bool
  pub last_seen_unix_ms : ℤ

-- &pb.ServerMessage{}
abbrev pub zero_server_message : ServerMessage
zero_server_message = record {
  room_id = [];
  user_id = [];
  message_id = [];
  text = [];
  sent_at_unix_ms = pos 0;
  delivered_at_unix_ms = pos 0;
  type = text;
  media_key = [];
  media_name = [];
  media_size_bytes = pos 0;
  media_mime_type = [];
  media_url = [];
  event_type = message;
  reply_to_message_id = [];
  reaction_emoji = [];
  is_deleted = false;
  edited_at_unix_ms = pos 0;
  status = sending;
  is_online = false;
  last_seen_unix_ms = pos 0;
}

-- &pb.ClientMessage{}
abbrev pub zero_client_message : ClientMessage
zero_client_message = record {
  room_id = [];
  user_id = [];
  message_id = [];
  text = [];
  sent_at_unix_ms = pos 0;
  type = text;
  media_key = [];
  media_name = [];
  media_size_bytes = pos 0;
  media_mime_type = [];
  event_type = message;
  reply_to_message_id = [];
  reaction_emoji = [];
}
