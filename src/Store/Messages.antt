-- ===== src/Store/Messages.antt =====
-- The messages of app/repository/mongodb.go: `SaveMessage`, `SearchMessages`, `SoftDeleteMessage`,
-- `SoftDeleteMessageByOwner`, `EditMessage`, `SaveMediaUpload`, `GetMessages`, `GetMessagesBefore`.
pub mod Owners
pub mod Rooms
use chat_service.Server.Incoming.{paper_clip}
use chat_service.Server.Calls.{zero_time}
use chat_service.Store.Reading.{mark_read_by}
use chat_service.Store.Repository.{Method, Repository}
use chat_service.RoomId.{room_id_aliases, contains}
use chat_service.Store.Engine.{Done, Engine}
use chat_service.Proto.{ServerMessage}
use chat_service.Store.Documents.{doc_to_server_message, MediaUploadDoc, message_doc, MessageDoc}
use chat_service.Prelude.{
  map, ltb, [], ◌++◌, negsuc, ok, ◌∷◌, ◌==◌, eqb_ℤ, err, pos, ◌||◌, Result, ◌&&◌, if◌then◌else◌,
  true, ℕ, ltb_ℤ, not, ℤ, List, Bool,
}
use chat_service.Text.{is_empty, same, lit, Bytes}

-- A filter on a field that is left out of the document where it is empty.
abbrev pub present_and : Bytes → Bool → Bool
present_and s b = not (is_empty s) && b

-- "_id" or "message_id"
unfoldable pub has_id : Bytes → MessageDoc → Bool
has_id id d = same d.id id || present_and d.message_id (same d.message_id id)

-- "sender_id" or "user_id"
unfoldable pub is_owned_by : Bytes → MessageDoc → Bool
is_owned_by user d = same d.sender_id user || present_and d.user_id (same d.user_id user)

-- The filter on the rooms of `ids`.
unfoldable pub is_in_rooms : List Bytes → MessageDoc → Bool
is_in_rooms ids d = contains ids d.conversation_id || present_and d.room_id (contains ids d.room_id)

-- "created_at" or "sent_at" before a time; a zero `sent_at` is left out of the document
unfoldable pub is_before : ℤ → MessageDoc → Bool
is_before t d = ltb_ℤ d.created_at t || (not (eqb_ℤ d.sent_at zero_time) && ltb_ℤ d.sent_at t)

-- "created_at" downwards, then "sent_at" downwards
abbrev pub newest_first : MessageDoc → MessageDoc → Bool
newest_first d d' =
    ltb_ℤ d'.created_at d.created_at
    || (eqb_ℤ d'.created_at d.created_at && ltb_ℤ d'.sent_at d.sent_at)

-- `limit`, where one of 0 or less is 50
unfoldable pub limit_or_default : ℤ → ℕ
limit_or_default (pos n) = if n == 0 then 50 else n
limit_or_default (negsuc n) = 50

abbrev pub mark_deleted : MessageDoc → MessageDoc
mark_deleted d = record d { is_deleted = true }

unfoldable pub edit_doc : Bytes → ℤ → MessageDoc → MessageDoc
edit_doc text now d = record d { content = text; text_body = text; edited_at = now }

-- The preview of SaveMessage, which is not cut
last_message_of : ServerMessage → Bytes
last_message_of m =
    if is_empty m.text && not (is_empty m.media_name) then paper_clip ++ m.media_name else m.text

unfoldable pub deletable : Bytes → Bytes → MessageDoc → Bool
deletable id user d = has_id id d && is_owned_by user d

unfoldable pub editable : Bytes → Bytes → MessageDoc → Bool
editable id user d = not d.is_deleted && (has_id id d && is_owned_by user d)

module _ (db : Engine) where
  -- What follows the insertion: the conversation's last message, and the document of its readers. The
  -- errors are dropped.
  after_insert : MessageDoc → Bytes → Repository db → Repository db
  after_insert doc last s = record s {
    conversations =
        (db.update_one (λ d. same d.id doc.conversation_id)
          (λ d. record d {
            last_message = last;
            last_message_id = doc.id;
            last_message_at = doc.created_at;
          })
          s.conversations).1;
    message_read =
        (db.upsert_one (λ d. same d.id doc.id) (mark_read_by doc.sender_id)
          (record {
            id = doc.id;
            conversation_id = doc.conversation_id;
            sender_id = doc.sender_id;
            content = last;
            read_by = doc.sender_id ∷ [];
          })
          s.message_read).1;
  }

  after_insertion :
      MessageDoc → Bytes → Result Bytes Done → Repository db → Result Bytes Done × Repository db
  unfolding after_insert
  after_insertion doc last (err e) s = (err e, s)
  after_insertion doc last (ok d) s = (ok d, after_insert doc last s)

  -- SaveMessage, with uuid.NewString() and the time
  unfoldable pub save_message : Bytes → ℤ → ServerMessage → Method db Done
  unfolding after_insertion last_message_of
  save_message new_id now m s =
      let doc = message_doc new_id now m in
      let (r, c) = db.insert_one doc s.messages in
      after_insertion doc (last_message_of m) r (record s { messages = c })

  -- SoftDeleteMessage
  pub soft_delete_message : Bytes → Method db ℕ
  soft_delete_message id s =
      let (r, c) = db.update_one (has_id id) mark_deleted s.messages in
      (r, record s { messages = c })

  unfoldable pub matched : Result Bytes ℕ → Result Bytes Bool
  matched (err e) = err e
  matched (ok n) = ok (ltb 0 n)

  -- SoftDeleteMessageByOwner: whether a message matched
  unfoldable pub soft_delete_message_by_owner : Bytes → Bytes → Method db Bool
  unfolding matched
  soft_delete_message_by_owner id user s =
      let (r, c) = db.update_one (deletable id user) mark_deleted s.messages in
      (matched r, record s { messages = c })

  unfoldable pub edited : ℤ → Result Bytes ℕ → Result Bytes ℤ
  edited now (err e) = err e
  edited now (ok n) = if n == 0 then err (lit "message not found or not owned by user") else ok now

  -- EditMessage: the time of the edit
  unfoldable pub edit_message : ℤ → Bytes → Bytes → Bytes → Method db ℤ
  unfolding edited
  edit_message now id user text s =
      let (r, c) = db.update_one (editable id user) (edit_doc text now) s.messages in
      (edited now r, record s { messages = c })

  -- SaveMediaUpload
  pub save_media_upload : MediaUploadDoc → Method db Done
  save_media_upload doc s = let (r, c) = db.insert_one doc s.media in (r, record s { media = c })

  unfoldable pub messages_of : Result Bytes (List MessageDoc) → Result Bytes (List ServerMessage)
  messages_of (err e) = err e
  messages_of (ok ds) = ok (map doc_to_server_message ds)

  -- queryMessages
  unfoldable pub query_messages :
      (MessageDoc → Bool) → ℕ → Repository db → Result Bytes (List ServerMessage)
  unfolding messages_of
  query_messages p limit s = messages_of (db.find_sorted p newest_first limit s.messages)

  -- GetMessages
  unfoldable pub get_messages : Bytes → ℤ → Repository db → Result Bytes (List ServerMessage)
  unfolding query_messages
  get_messages room limit s =
      query_messages (is_in_rooms (room_id_aliases room)) (limit_or_default limit) s

  -- GetMessagesBefore
  unfoldable pub get_messages_before :
      Bytes → ℤ → ℤ → Repository db → Result Bytes (List ServerMessage)
  unfolding get_messages
  get_messages_before room before limit s =
      let n = limit_or_default limit in
      if eqb_ℤ before (pos 0)
      then get_messages room (pos n) s
      else query_messages (λ d. is_in_rooms (room_id_aliases room) d && is_before before d) n s

  -- SearchMessages; `matches` is the database's test of a text against a regular expression
  pub search_messages :
      (Bytes → Bytes → Bool) → Bytes → Bytes → ℤ → Repository db → Result Bytes (List ServerMessage)
  unfolding messages_of
  search_messages matches conv query limit s = messages_of (
      db.find_sorted
        (λ d.
          not d.is_deleted
          && (same d.conversation_id conv || present_and d.room_id (same d.room_id conv))
          && (matches query d.content || present_and d.text_body (matches query d.text_body)))
        (λ d d'. ltb_ℤ d'.created_at d.created_at) (limit_or_default limit) s.messages)
