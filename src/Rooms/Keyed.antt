-- ===== src/Rooms/Keyed.antt =====
-- One row for a key in each table of app/repository/postgres.go, whatever its statements do.
use chat_service.Store.Engine.{done}
use chat_service.Rooms.Detailed.{
  activity_row, update_read_receipt, update_last_activity, set_receipt, set_activity,
}
use chat_service.Prelude.{
  some, none, not, ok, ap, ℤ, Option, ◌&&◌, inr, sym, arith, subst, true, inl, false, Bool-cases,
  ◌≡◌, List,
}
use chat_service.Rooms.{
  refers, insert_member, is_member, insert_room, is_receipt, of_room, Member, Tables, Receipt,
  Activity, ChatRoom, RoomMeta, has_id, room_row,
}
use chat_service.Rooms.Rows.{
  where_rows-upsert_other, where_rows-upsert, AtMostOne, AtMostOne-insert, where_rows-insert_other,
}
use chat_service.Rooms.Statements.{upsert_rows, IsSql, Sql, insert_rows}
use chat_service.Text.{is_empty, same_iff, same, Bytes}

-- A text that is not the one is not the other, when they differ.
same_other : (s k j : Bytes) → same k j ≡ false → same s k ≡ true → same s j ≡ false
same_other s k j h e = ground (arith, same_iff s k, same_iff s j, same_iff k j)

ChatRoom-insert :
    (m : RoomMeta) (id : Bytes) (rs : List ChatRoom)
    → AtMostOne (has_id id) rs
    → AtMostOne (has_id id) (insert_rows (has_id m.room_id) (room_row m) rs)
unfolding room_row
ChatRoom-insert m id rs one = elim (Bool-cases (same m.room_id id)) [
  | inl y ↦
      subst (λ k. AtMostOne (has_id id) (insert_rows (has_id k) (room_row m) rs))
        (sym ((same_iff m.room_id id).0 y)) (AtMostOne-insert (has_id id) (room_row m) rs y one)
  | inr n ↦ rw (where_rows-insert_other (has_id m.room_id) (has_id id) (room_row m) rs n) one
]

pair_other :
    (s u k j k' j' : Bytes)
    → (same k k' && same j j') ≡ false
    → (same s k && same u j) ≡ true
    → (same s k' && same u j') ≡ false
pair_other s u k j k' j' h e =
    ground (
      arith,
      same_iff s k,
      same_iff u j,
      same_iff s k',
      same_iff u j',
      same_iff k k',
      same_iff j j',
    )

both_same : (k j k' j' : Bytes) → (same k k' && same j j') ≡ true → (k ≡ k') × (j ≡ j')
both_same k j k' j' h = ground (arith, same_iff k k', same_iff j j')

Member-insert :
    (room user room' user' : Bytes) (left : Option ℤ) (ms : List Member)
    → AtMostOne (is_member room' user') ms
    → AtMostOne (is_member room' user') (
        insert_rows
          (is_member room user)
          (record { room_id = room; user_id = user; left_at = left })
          ms)
Member-insert room user room' user' left ms one =
    elim (Bool-cases (same room room' && same user user')) [
      | inl y ↦
          let (k, j) = both_same room user room' user' y in
          subst
            (λ c.
              AtMostOne (is_member room' user')
                (insert_rows c (record { room_id = room; user_id = user; left_at = left }) ms))
            (λ i. is_member (sym k i) (sym j i))
            (AtMostOne-insert (is_member room' user')
              (record { room_id = room; user_id = user; left_at = left }) ms y one)
      | inr n ↦
          rw
            (where_rows-insert_other (is_member room user) (is_member room' user')
              (record { room_id = room; user_id = user; left_at = left }) ms n)
            one
    ]

Activity-upsert :
    (a : Activity) (room : Bytes) (acts : List Activity)
    → AtMostOne (of_room room) acts
    → AtMostOne (of_room room) (upsert_rows (of_room a.room_id) (set_activity a) a acts)
unfolding set_activity
Activity-upsert a room acts one = elim (Bool-cases (same a.room_id room)) [
  | inl y ↦
      subst (λ k. AtMostOne (of_room room) (upsert_rows (of_room k) (set_activity a) a acts))
        (sym ((same_iff a.room_id room).0 y))
        (rw (where_rows-upsert (of_room room) (set_activity a) a acts y (λ s e. e) one)
          (omega arith))
  | inr n ↦
      rw
        (where_rows-upsert_other (of_room a.room_id) (of_room room) (set_activity a) a acts n
          (λ s e.
            (same_other s.room_id a.room_id room n e, same_other s.room_id a.room_id room n e)))
        one
]

Receipt-upsert :
    (r : Receipt) (room user : Bytes) (rs : List Receipt)
    → AtMostOne (is_receipt room user) rs
    → AtMostOne
        (is_receipt room user)
        (upsert_rows (is_receipt r.room_id r.user_id) (set_receipt r) r rs)
unfolding set_receipt
Receipt-upsert r room user rs one = elim (Bool-cases (same r.room_id room && same r.user_id user)) [
  | inl y ↦
      let (k, j) = both_same r.room_id r.user_id room user y in
      subst (λ c. AtMostOne (is_receipt room user) (upsert_rows c (set_receipt r) r rs))
        (λ i. is_receipt (sym k i) (sym j i))
        (rw (where_rows-upsert (is_receipt room user) (set_receipt r) r rs y (λ s e. e) one)
          (omega arith))
  | inr n ↦
      rw
        (where_rows-upsert_other (is_receipt r.room_id r.user_id) (is_receipt room user)
          (set_receipt r) r rs n
          (λ s e. (
            pair_other s.room_id s.user_id r.room_id r.user_id room user n e,
            pair_other s.room_id s.user_id r.room_id r.user_id room user n e,
          )))
        one
]

module _ (q : Sql) where
  -- A statement that has succeeded, and the tables before and after it.
  pub data Statement : Tables q → Tables q → Type 0 where
    room_inserted :
        (m : RoomMeta) {t t' : Tables q} → insert_room q m t ≡ (ok done, t') → Statement t t'
    member_inserted :
        (room user : Bytes) {t t' : Tables q}
        → insert_member q room user t ≡ (ok done, t')
        → Statement t t'
    activity_updated :
        (room msg sender preview : Bytes) (at : ℤ) {t t' : Tables q}
        → update_last_activity q room msg sender preview at t ≡ (ok done, t')
        → Statement t t'
    receipt_updated :
        (room user msg : Bytes) (at : ℤ) {t t' : Tables q}
        → update_read_receipt q room user msg at t ≡ (ok done, t')
        → Statement t t'

  pub data Ran (t : Tables q) : Tables q → Type 0 where
    ran_nothing : Ran t t
    ran_also : {t' t'' : Tables q} → Ran t t' → Statement t' t'' → Ran t t''

  -- The primary keys.
  pub record IsKeyed (t : Tables q) : Type 0 where
    pub rooms : (room : Bytes) → AtMostOne (has_id room) (q.rows t.chat_rooms)
    pub members : (room user : Bytes) → AtMostOne (is_member room user) (q.rows t.chat_room_members)
    pub activities : (room : Bytes) → AtMostOne (of_room room) (q.rows t.chat_room_last_activity)
    pub receipts :
        (room user : Bytes) → AtMostOne (is_receipt room user) (q.rows t.chat_read_receipts)

  module _ (laws : IsSql q) where
    insert_room-IsKeyed :
        (m : RoomMeta) (t : Tables q)
        → (insert_room q m t).0 ≡ ok done
        → IsKeyed t
        → IsKeyed (insert_room q m t).1
    unfolding insert_room
    insert_room-IsKeyed m t h k =
        let table =
          q.insert_new (has_id m.room_id) (not (is_empty m.created_by)) (room_row m) t.chat_rooms in
        let rows = (laws.inserted _ _ (room_row m) t.chat_rooms table.1 (λ i. (h i, table.1))).1 in
        record {
          rooms = λ room. rw rows (ChatRoom-insert m room (q.rows t.chat_rooms) (k.rooms room));
          members = k.members;
          activities = k.activities;
          receipts = k.receipts;
        }

    insert_member-IsKeyed :
        (room user : Bytes) (t : Tables q)
        → (insert_member q room user t).0 ≡ ok done
        → IsKeyed t
        → IsKeyed (insert_member q room user t).1
    unfolding insert_member
    insert_member-IsKeyed room user t h k =
        let m : Member = record { room_id = room; user_id = user; left_at = none } in
        let table =
          q.insert_new (is_member room user)
            (not (is_empty user) && refers room (q.rows t.chat_rooms)) m t.chat_room_members in
        let rows = (laws.inserted _ _ m t.chat_room_members table.1 (λ i. (h i, table.1))).1 in
        record {
          rooms = k.rooms;
          members = λ room' user'. rw rows (
              Member-insert room user room' user' none (q.rows t.chat_room_members)
                (k.members room' user'));
          activities = k.activities;
          receipts = k.receipts;
        }

    update_last_activity-IsKeyed :
        (room msg sender preview : Bytes) (at : ℤ) (t : Tables q)
        → (update_last_activity q room msg sender preview at t).0 ≡ ok done
        → IsKeyed t
        → IsKeyed (update_last_activity q room msg sender preview at t).1
    unfolding update_last_activity activity_row
    update_last_activity-IsKeyed room msg sender preview at t h k =
        let a = activity_row room msg sender preview at in
        let table =
          q.upsert (of_room room) (set_activity a) (refers room (q.rows t.chat_rooms)) a
            t.chat_room_last_activity in
        let rows =
          (laws.upserted _ _ _ a t.chat_room_last_activity table.1 (λ i. (h i, table.1))).1 in
        record {
          rooms = k.rooms;
          members = k.members;
          activities = λ room'.
              rw rows
                (Activity-upsert a room' (q.rows t.chat_room_last_activity) (k.activities room'));
          receipts = k.receipts;
        }

    update_read_receipt-IsKeyed :
        (room user msg : Bytes) (at : ℤ) (t : Tables q)
        → (update_read_receipt q room user msg at t).0 ≡ ok done
        → IsKeyed t
        → IsKeyed (update_read_receipt q room user msg at t).1
    unfolding update_read_receipt
    update_read_receipt-IsKeyed room user msg at t h k =
        let r : Receipt = record {
          room_id = room;
          user_id = user;
          last_read_at = at;
          last_read_msg_id = some msg;
        } in
        let table =
          q.upsert (is_receipt room user) (set_receipt r)
            (not (is_empty user) && refers room (q.rows t.chat_rooms)) r t.chat_read_receipts in
        let rows = (laws.upserted _ _ _ r t.chat_read_receipts table.1 (λ i. (h i, table.1))).1 in
        record {
          rooms = k.rooms;
          members = k.members;
          activities = k.activities;
          receipts = λ room' user'.
              rw rows (
                Receipt-upsert r room' user' (q.rows t.chat_read_receipts)
                  (k.receipts room' user'));
        }

    Statement-IsKeyed : (t t' : Tables q) → Statement t t' → IsKeyed t → IsKeyed t'
    Statement-IsKeyed t t' (room_inserted m h) k =
        subst IsKeyed (ap (λ x. x.1) h) (insert_room-IsKeyed m t (ap (λ x. x.0) h) k)
    Statement-IsKeyed t t' (member_inserted room user h) k =
        subst IsKeyed (ap (λ x. x.1) h) (insert_member-IsKeyed room user t (ap (λ x. x.0) h) k)
    Statement-IsKeyed t t' (activity_updated room msg sender preview at h) k =
        subst IsKeyed (ap (λ x. x.1) h)
          (update_last_activity-IsKeyed room msg sender preview at t (ap (λ x. x.0) h) k)
    Statement-IsKeyed t t' (receipt_updated room user msg at h) k =
        subst IsKeyed (ap (λ x. x.1) h)
          (update_read_receipt-IsKeyed room user msg at t (ap (λ x. x.0) h) k)

    -- However many statements succeed, from tables with one row for a key: the tables after them have
    -- one row for a key.
    pub Ran-IsKeyed : (t t' : Tables q) → IsKeyed t → Ran t t' → IsKeyed t'
    Ran-IsKeyed t t' k ran_nothing = k
    Ran-IsKeyed t t'' k (ran_also {t' = t'} r s) = Statement-IsKeyed t' t'' s (Ran-IsKeyed t t' k r)
