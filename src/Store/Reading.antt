-- ===== src/Store/Reading.antt =====
-- Which messages a user has read: `MarkMessageRead`, `GetUnreadCount`, `UpdateReadReceipt` of
-- app/repository/mongodb.go.
pub mod Unread
use chat_service.RoomId.{contains}
use chat_service.Store.Repository.{Method, Repository}
use chat_service.Store.Engine.{Engine}
use chat_service.Prelude.{
  ◌-◌, negsuc, pos, ◌||◌, [], ltb, ◌&&◌, ◌∷◌, err, ◌^◌, ◌++◌, ok, ◌%◌, not, Result, ℤ, Bool,
  if◌then◌else◌, ℕ,
}
use chat_service.Store.Documents.{MessageReadDoc}
use chat_service.Text.{same, is_empty, Bytes}

-- "$addToSet" of a user to `read_by`
unfoldable pub mark_read_by : Bytes → MessageReadDoc → MessageReadDoc
mark_read_by user d =
    if contains d.read_by user then d else record d { read_by = d.read_by ++ user ∷ [] }

-- The filter of GetUnreadCount; an empty conversation id stands for all.
unfoldable pub is_unread : Bytes → Bytes → MessageReadDoc → Bool
is_unread user conv d =
    not (same d.sender_id user)
    && not (contains d.read_by user)
    && (is_empty conv || same d.conversation_id conv)

-- int32(count)
unfoldable pub to_int32 : ℕ → ℤ
to_int32 n = let r = n % 2 ^ 32 in if ltb r (2 ^ 31) then pos r else negsuc (2 ^ 32 - r - 1)

module _ (db : Engine) where
  -- UpdateReadReceipt
  unfoldable pub update_read_receipt : Bytes → Bytes → Bytes → ℤ → Method db ℕ
  update_read_receipt room user msg at s =
      let (r, c) =
        db.upsert_one (λ d. same d.room_id room && same d.user_id user)
          (λ d. record d { last_read_at = at; last_read_msg_id = msg })
          (record { room_id = room; user_id = user; last_read_at = at; last_read_msg_id = msg })
          s.receipts in
      (r, record s { receipts = c })

  -- One message, or all messages of the conversation where the request names none.
  unfoldable pub read_in :
      Bytes → Bytes → Bytes → db.Coll MessageReadDoc → Result Bytes ℕ × db.Coll MessageReadDoc
  read_in conv user msg c =
      if is_empty msg
      then db.update_many (λ d. same d.conversation_id conv) (mark_read_by user) c
      else db.update_one (λ d. same d.id msg) (mark_read_by user) c

  -- MarkMessageRead, which drops an error of the receipt
  unfoldable pub mark_message_read : ℤ → Bytes → Bytes → Bytes → Method db ℕ
  unfolding read_in update_read_receipt
  mark_message_read now conv user msg s =
      let s' = (update_read_receipt conv user msg now s).1 in
      let (r, c) = read_in conv user msg s'.message_read in (r, record s' { message_read = c })

  -- GetUnreadCount
  unfoldable pub get_unread_count : Bytes → Bytes → Repository db → Result Bytes ℤ
  get_unread_count user conv s = elim (db.count_documents (is_unread user conv) s.message_read) [
    | ok n ↦ ok (to_int32 n)
    | err e ↦ err e
  ]
