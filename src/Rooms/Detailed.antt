-- ===== src/Rooms/Detailed.antt =====
-- The last message of a room, the read cursors and the lists of rooms in app/repository/postgres.go.
-- Times are Unix milliseconds, the precision of what the service stores.
use chat_service.Prelude.{
  none, ◌&&◌, pos, not, ltb_ℤ, map, [], ok, ◌∷◌, err, if◌then◌else◌, true, false, some, Bool, List,
  Result, Option, ℤ,
}
use chat_service.Rooms.{
  Activity, ChatRoom, Member, Receipt, Tables, Method, and_then, is_active, is_active_in,
  is_receipt, of_room, or_empty, refers,
}
use chat_service.Rooms.Statements.{Sql}
use chat_service.Server.Listing.{RoomRow}
use chat_service.Text.{is_empty, same, Bytes}

-- The row of UpdateLastActivity, and what DO UPDATE SET makes of the one that is there.
unfoldable pub activity_row : Bytes → Bytes → Bytes → Bytes → ℤ → Activity
activity_row room msg sender preview at = record {
  room_id = room;
  last_message_at = at;
  last_message_id = some msg;
  last_sender_id = some sender;
  preview_text = some preview;
}

unfoldable pub set_activity : Activity → Activity → Activity
set_activity excluded a = record a {
  last_message_at = excluded.last_message_at;
  last_message_id = excluded.last_message_id;
  last_sender_id = excluded.last_sender_id;
  preview_text = excluded.preview_text;
}

unfoldable pub set_receipt : Receipt → Receipt → Receipt
set_receipt excluded r = record r {
  last_read_at = excluded.last_read_at;
  last_read_msg_id = excluded.last_read_msg_id;
}

-- la.last_sender_id IS NOT NULL AND la.last_sender_id = $2
abbrev pub sent_by : Bytes → Option Bytes → Bool
sent_by user none = false
sent_by user (some sender) = same sender user

-- The last three branches of the CASE; the cursor is NULL where the user has none.
abbrev pub unread_after : ℤ → Option Receipt → Bool
unread_after at none = true
unread_after at (some r) = ltb_ℤ r.last_read_at at

-- The CASE of the unread flag; last_message_at is NOT NULL, so that its first branch never applies.
unfoldable pub unread_case : Bytes → Activity → Option Receipt → Bool
unread_case user a r =
    if sent_by user a.last_sender_id then false else unread_after a.last_message_at r

-- `_ = row.Scan(&v)`: `v` keeps its zero value where the query fails or returns no row.
abbrev pub scanned {ℓ κ} : {A : Type ℓ} {B : Type κ} → Result Bytes (List A) → (A → B) → B → B
scanned (err e) f zero_value = zero_value
scanned (ok []) f zero_value = zero_value
scanned (ok (a ∷ rest)) f zero_value = f a

-- sort.Slice by the time of the last message, the latest first. Go leaves the order of rooms of the
-- same time open.
unfoldable pub insert_recent : RoomRow → List RoomRow → List RoomRow
insert_recent r [] = r ∷ []
insert_recent r (s ∷ rs) =
    let rest = s ∷ insert_recent r rs in
    if ltb_ℤ r.last_message_at s.last_message_at then rest else r ∷ s ∷ rs

unfoldable pub sort_recent : List RoomRow → List RoomRow
unfolding insert_recent
sort_recent [] = []
sort_recent (r ∷ rs) = insert_recent r (sort_recent rs)

module _ (q : Sql) where
  -- UpdateLastActivity
  unfoldable pub update_last_activity : Bytes → Bytes → Bytes → Bytes → ℤ → Method q
  unfolding activity_row set_activity refers
  update_last_activity room msg sender preview at t =
      let a = activity_row room msg sender preview at in
      let (r, activity) =
        q.upsert (of_room room) (set_activity a) (refers room (q.rows t.chat_rooms)) a
          t.chat_room_last_activity in
      (r, record t { chat_room_last_activity = activity })

  -- UpdateReadReceipt
  unfoldable pub update_read_receipt : Bytes → Bytes → Bytes → ℤ → Method q
  unfolding set_receipt refers
  update_read_receipt room user msg at t =
      let excluded : Receipt = record {
        room_id = room;
        user_id = user;
        last_read_at = at;
        last_read_msg_id = some msg;
      } in
      let (r, receipts) =
        q.upsert (is_receipt room user) (set_receipt excluded)
          (not (is_empty user) && refers room (q.rows t.chat_rooms)) excluded
          t.chat_read_receipts in
      (r, record t { chat_read_receipts = receipts })

  -- GetUserRooms
  unfoldable pub get_user_rooms : Bytes → Tables q → Result Bytes (List Bytes)
  get_user_rooms user t =
      and_then (q.select (is_active user) t.chat_room_members) λ ms. ok (map (λ m. m.room_id) ms)

  -- The last message of a room and its time, 0 if there is none.
  unfoldable pub last_activity : Bytes → Tables q → Bytes × ℤ
  unfolding or_empty
  last_activity room t =
      scanned (q.select (of_room room) t.chat_room_last_activity)
        (λ a. (or_empty a.preview_text, a.last_message_at)) ([], pos 0)

  -- rr.room_id = la.room_id AND rr.user_id = $2
  abbrev pub receipt_of : Bytes → Activity → Receipt → Bool
  receipt_of user a r = same r.room_id a.room_id && same r.user_id user

  -- hasUnread
  unfoldable pub has_unread : Bytes → Bytes → Tables q → Bool
  unfolding unread_case
  has_unread room user t =
      scanned
        (q.select_left_join (receipt_of user) (of_room room) t.chat_room_last_activity
          t.chat_read_receipts)
        (λ row. unread_case user row.0 row.1) false

  -- The room of a round of the loop.
  unfoldable pub detailed : Bytes → Tables q → ChatRoom → List Bytes → RoomRow
  unfolding last_activity has_unread or_empty
  detailed user t r members =
      let (message, at) = last_activity r.id t in
      record {
        room_id = r.id;
        room_type = r.room_type;
        name = or_empty r.name;
        last_message = message;
        last_message_at = at;
        has_unread = has_unread r.id user t;
        member_ids = members;
      }

  -- The members of a room of the loop: unlike GetRoom, the loop does not ask for mRows.Err().
  unfoldable pub members_read : Bytes → Tables q → Result Bytes (List Bytes)
  members_read room t =
      and_then (q.select_read (is_active_in room) t.chat_room_members)
        λ ms. ok (map (λ m. m.user_id) ms)

  -- the loop over `bases`
  unfoldable pub all_detailed : Bytes → Tables q → List ChatRoom → Result Bytes (List RoomRow)
  unfolding members_read detailed
  all_detailed user t [] = ok []
  all_detailed user t (r ∷ rs) =
      and_then (members_read r.id t)
        λ members. and_then (all_detailed user t rs) λ rows. ok (detailed user t r members ∷ rows)

  -- m.room_id = cr.id
  abbrev pub in_room : ChatRoom → Member → Bool
  in_room r m = same m.room_id r.id

  -- GetUserRoomsDetailed
  unfoldable pub get_user_rooms_detailed : Bytes → Tables q → Result Bytes (List RoomRow)
  unfolding all_detailed sort_recent
  get_user_rooms_detailed user t =
      and_then (q.select_join in_room (is_active user) t.chat_rooms t.chat_room_members)
        λ bases. and_then (all_detailed user t (map (λ b. b.0) bases)) λ rows. ok (sort_recent rows)
