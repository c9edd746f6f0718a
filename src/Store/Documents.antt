-- ===== src/Store/Documents.antt =====
-- The documents of the collections and their conversion to and from messages. A document that is
-- read is the one that was written; times are Unix milliseconds, the precision of the database.
pub mod Reread
use chat_service.Server.Calls.{zero_time}
use chat_service.Text.Decimal.{itoa}
use chat_service.Proto.{
  file, audio, message, video, image, text, zero_server_message, other_message_type, ServerMessage,
  MessageType,
}
use chat_service.Prelude.{
  pos, [], none, ◌-◌, eqb_ℤ, some, ◌&&◌, ◌∷◌, ◌++◌, ◌==◌, leb, Bool, if◌then◌else◌, Option, ℕ, ℤ,
  List,
}
use chat_service.Text.{is_empty, same, lit, Bytes}

pub record ConversationDoc : Type 0 where
  pub id : Bytes
  pub type : Bytes
  pub participants : List Bytes
  pub group_name : Bytes
  pub group_photo : Bytes
  pub description : Bytes
  pub member_count : ℤ
  pub last_message : Bytes
  pub last_message_id : Bytes
  pub last_message_at : ℤ
  pub created_by : Bytes
  pub created_at : ℤ

pub record GroupMemberDoc : Type 0 where
  pub id : Bytes
  pub conversation_id : Bytes
  pub user_id : Bytes
  pub role : Bytes
  pub joined_at : ℤ
  pub status : Bytes

pub record MessageDoc : Type 0 where
  pub id : Bytes
  pub message_id : Bytes
  pub conversation_id : Bytes
  pub sender_id : Bytes
  pub message_type : Bytes
  pub content : Bytes
  pub created_at : ℤ
  pub delivered_at : ℤ
  pub media_key : Bytes
  pub media_name : Bytes
  pub media_mime_type : Bytes
  pub media_size_bytes : ℤ
  pub reply_to_message_id : Bytes
  pub is_deleted : Bool
  pub edited_at : ℤ
  pub room_id : Bytes
  pub user_id : Bytes
  pub text_body : Bytes
  pub sent_at : ℤ

pub record MessageReadDoc : Type 0 where
  pub id : Bytes
  pub conversation_id : Bytes
  pub sender_id : Bytes
  pub content : Bytes
  pub read_by : List Bytes

pub record ReadReceiptDoc : Type 0 where
  pub room_id : Bytes
  pub user_id : Bytes
  pub last_read_at : ℤ
  pub last_read_msg_id : Bytes

pub record MediaUploadDoc : Type 0 where
  pub media_key : Bytes
  pub uploader_id : Bytes
  pub room_id : Bytes
  pub file_name : Bytes
  pub mime_type : Bytes
  pub size_bytes : ℤ
  pub uploaded_at : ℤ
  pub expires_at : ℤ

-- MessageType.String()
pub type_name : MessageType → Bytes
type_name text = lit "MESSAGE_TYPE_TEXT"
type_name image = lit "MESSAGE_TYPE_IMAGE"
type_name video = lit "MESSAGE_TYPE_VIDEO"
type_name audio = lit "MESSAGE_TYPE_AUDIO"
type_name file = lit "MESSAGE_TYPE_FILE"
type_name (other_message_type n) = itoa n

upper_byte : ℕ → ℕ
upper_byte c = if leb b'a' c && leb c b'z' then c - 32 else c

-- The long s and the dotless i in UTF-8
upper_pair : ℕ → ℕ → Option ℕ
upper_pair c d =
    if (c == 0xc5) && (d == 0xbf)
    then some b'S'
    else if (c == 0xc4) && (d == 0xb1)
    then some b'I'
    else none

-- strings.ToUpper, as far as ASCII letters can come out of it: the letters a to z, and the long s and
-- the dotless i, the only other characters whose upper case is in ASCII. No name of a type has a byte
-- beyond ASCII, so that the other characters need not be changed.
pub to_upper : Bytes → Bytes
unfolding upper_byte upper_pair
to_upper [] = []
to_upper (c ∷ []) = upper_byte c ∷ []
to_upper (c ∷ d ∷ s) = elim (upper_pair c d) [
  | some u ↦ u ∷ to_upper s
  | none ↦ upper_byte c ∷ to_upper (d ∷ s)
]

-- pb.MessageType_value
type_value : Bytes → Option MessageType
type_value name =
    if same name (lit "MESSAGE_TYPE_TEXT")
    then some text
    else if same name (lit "MESSAGE_TYPE_IMAGE")
    then some image
    else if same name (lit "MESSAGE_TYPE_VIDEO")
    then some video
    else if same name (lit "MESSAGE_TYPE_AUDIO")
    then some audio
    else if same name (lit "MESSAGE_TYPE_FILE")
    then some file
    else none

pub type_of_doc : Bytes → MessageType
unfolding type_value to_upper
type_of_doc name = elim (type_value (lit "MESSAGE_TYPE_" ++ to_upper name)) [
  | some t ↦ t
  | none ↦ text
]

-- The document that SaveMessage inserts, with the random id and the time that it may use.
unfoldable pub message_doc : Bytes → ℤ → ServerMessage → MessageDoc
unfolding type_name
message_doc new_id now m =
    let id = if is_empty m.message_id then new_id else m.message_id in
    let created_at = if eqb_ℤ m.sent_at_unix_ms zero_time then now else m.sent_at_unix_ms in
    record {
      id = id;
      message_id = id;
      conversation_id = m.room_id;
      sender_id = m.user_id;
      message_type = type_name m.type;
      content = m.text;
      created_at = created_at;
      delivered_at = m.delivered_at_unix_ms;
      media_key = m.media_key;
      media_name = m.media_name;
      media_mime_type = m.media_mime_type;
      media_size_bytes = m.media_size_bytes;
      reply_to_message_id = m.reply_to_message_id;
      is_deleted = m.is_deleted;
      edited_at = zero_time;
      room_id = m.room_id;
      user_id = m.user_id;
      text_body = m.text;
      sent_at = created_at;
    }

-- The first of two texts that is not empty.
abbrev pub or_else : Bytes → Bytes → Bytes
or_else s t = if is_empty s then t else s

-- docToServerMessage
unfoldable pub doc_to_server_message : MessageDoc → ServerMessage
unfolding type_of_doc
doc_to_server_message d = record zero_server_message {
  room_id = or_else d.conversation_id d.room_id;
  user_id = or_else d.sender_id d.user_id;
  message_id = d.id;
  text = or_else d.content d.text_body;
  type = type_of_doc d.message_type;
  sent_at_unix_ms = if eqb_ℤ d.created_at zero_time then d.sent_at else d.created_at;
  delivered_at_unix_ms = d.delivered_at;
  media_key = d.media_key;
  media_name = d.media_name;
  media_mime_type = d.media_mime_type;
  media_size_bytes = d.media_size_bytes;
  reply_to_message_id = d.reply_to_message_id;
  is_deleted = d.is_deleted;
  edited_at_unix_ms = if eqb_ℤ d.edited_at zero_time then pos 0 else d.edited_at;
  event_type = message;
}
