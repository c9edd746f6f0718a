-- ===== src/Rooms/Unread.antt =====
-- The unread flag of `GetUserRoomsDetailed` in app/repository/postgres.go, after a message and after
-- a receipt.
use chat_service.Prelude.{
  ◌↔◌, subst, err, Result, Bool, ltb_ℤ, false, inr, inl, ◌∙◌, Bool-cases, append-nil, sym, ◌&&◌,
  refl, arith, ap, [], ◌∷◌, ok, not, true, some, ◌≤◌, none, All, ◌≡◌, length, Option, ℤ, List,
}
use chat_service.Rooms.{Activity, Receipt, Tables, is_receipt, of_room, refers}
use chat_service.Rooms.Detailed.{
  update_read_receipt, sent_by, set_receipt, activity_row, has_unread, receipt_of, scanned,
  set_activity, unread_after, unread_case, update_last_activity,
}
use chat_service.Rooms.Statements.{
  IsSql, Sql, left_join_rows, beside_or_null, upsert_rows, where_rows,
}
use chat_service.Rooms.Rows.{AtMostOne, upserted, where_rows-All, where_rows-upsert}
use chat_service.Rooms.Shuffled.{All-Shuffled, one_of}
use chat_service.Store.Engine.{done}
use chat_service.Text.{is_empty, same_refl, same, same_iff, Bytes}

-- The read cursor of a user in a room; NULL where there is none.
abbrev pub cursor_of : List Receipt → Option Receipt
cursor_of [] = none
cursor_of (r ∷ rs) = some r

abbrev pub cursor : Bytes → Bytes → List Receipt → Option Receipt
cursor room user rs = cursor_of (where_rows (is_receipt room user) rs)

beside_one :
    (a : Activity) (rs : List Receipt)
    → length rs ≤ 1
    → beside_or_null a rs ≡ (a, cursor_of rs) ∷ []
unfolding beside_or_null
beside_one a [] h = refl
beside_one a (r ∷ []) h = refl
beside_one a (r ∷ s ∷ rs) h = absurd (omega arith)

-- The row of the room after UpdateLastActivity.
record Says (room sender : Bytes) (at : ℤ) (a : Activity) : Type 0 where
  in_it : a.room_id ≡ room
  sender_is : a.last_sender_id ≡ some sender
  time_is : a.last_message_at ≡ at

upserted-Says :
    (room msg sender preview : Bytes) (at : ℤ) (acts : List Activity)
    → All (λ a. of_room room a ≡ true) acts
    → Says room sender at (
        upserted
          (of_room room)
          (set_activity (activity_row room msg sender preview at))
          (activity_row room msg sender preview at)
          acts)
unfolding set_activity activity_row
upserted-Says room msg sender preview at [] h = record {
  in_it = refl;
  sender_is = refl;
  time_is = refl;
}
upserted-Says room msg sender preview at (a ∷ acts) h = record {
  in_it = (same_iff a.room_id room).0 h.0;
  sender_is = refl;
  time_is = refl;
}

unread-Says :
    (room sender user : Bytes) (at : ℤ) (a : Activity) (r : Option Receipt)
    → Says room sender at a
    → unread_case user a r ≡ (not (same sender user) && unread_after at r)
unfolding unread_case
unread-Says room sender user at a r h =
    rw (h.sender_is, h.time_is)
      (elim (Bool-cases (same sender user)) [ inl y ↦ rw y refl | inr n ↦ rw n refl ])

abbrev receipt_row : Bytes → Bytes → Bytes → ℤ → Receipt
receipt_row room user msg at = record {
  room_id = room;
  user_id = user;
  last_read_at = at;
  last_read_msg_id = some msg;
}

upserted_time :
    (room user msg : Bytes) (at : ℤ) (rs : List Receipt)
    → (upserted
        (is_receipt room user)
        (set_receipt (receipt_row room user msg at))
        (receipt_row room user msg at)
        rs).last_read_at
      ≡ at
unfolding set_receipt
upserted_time room user msg at [] = refl
upserted_time room user msg at (r ∷ rs) = refl

-- The user has no cursor, or one at a time before the given one.
abbrev pub Behind : ℤ → Option Receipt → Type 0
Behind at none = Unit
Behind at (some r) = ltb_ℤ r.last_read_at at ≡ true

unread_iff :
    (sender user : Bytes) (at : ℤ) (c : Option Receipt)
    → ((not (same sender user) && unread_after at c) ≡ true) ↔ (¬ (sender ≡ user) × Behind at c)
unread_iff sender user at none = (
  λ h. ((λ e. let y = (same_iff sender user).1 e in ground (arith, h, y)), tt),
  λ (other, u). elim (Bool-cases (same sender user)) [
    | inl y ↦ absurd (other ((same_iff sender user).0 y))
    | inr n ↦ rw n refl
  ],
)
unread_iff sender user at (some r) = (
  λ h. ((λ e. let y = (same_iff sender user).1 e in ground (arith, h, y)), ground (arith, h)),
  λ (other, late). elim (Bool-cases (same sender user)) [
    | inl y ↦ absurd (other ((same_iff sender user).0 y))
    | inr n ↦ rw (n, late) refl
  ],
)

module _ (q : Sql) (laws : IsSql q) where
  update_last_activity_ok :
      (room msg sender preview : Bytes) (at : ℤ) (t t' : Tables q)
      → update_last_activity q room msg sender preview at t ≡ (ok done, t')
      → (q.rows t'.chat_room_last_activity
          ≡ upsert_rows
              (of_room room)
              (set_activity (activity_row room msg sender preview at))
              (activity_row room msg sender preview at)
              (q.rows t.chat_room_last_activity))
        × (t'.chat_read_receipts ≡ t.chat_read_receipts)
  unfolding update_last_activity
  update_last_activity_ok room msg sender preview at t t' h =
      let a = activity_row room msg sender preview at in
      let table =
        q.upsert (of_room room) (set_activity a) (refers room (q.rows t.chat_rooms)) a
          t.chat_room_last_activity in
      let answer : table.0 ≡ ok done = ap (λ x. x.0) h in
      let after : table.1 ≡ t'.chat_room_last_activity = ap (λ x. x.1.chat_room_last_activity) h in
      (
        (laws.upserted _ _ _ a t.chat_room_last_activity t'.chat_room_last_activity
            (λ i. (answer i, after i))).1,
        sym (ap (λ x. x.1.chat_read_receipts) h),
      )

  join_of_one :
      (room user : Bytes) (a : Activity) (receipts : List Receipt)
      → a.room_id ≡ room
      → AtMostOne (is_receipt room user) receipts
      → left_join_rows (receipt_of q user) (a ∷ []) receipts ≡ (a, cursor room user receipts) ∷ []
  unfolding left_join_rows
  join_of_one room user a receipts e one =
      append-nil (beside_or_null a (where_rows (receipt_of q user a) receipts))
      ∙ ap (λ k. beside_or_null a (where_rows (is_receipt k user) receipts)) e
      ∙ beside_one a (where_rows (is_receipt room user) receipts) one

  -- After UpdateLastActivity has recorded a message, the room is unread for a user exactly if the user is
  -- not the sender and has no read cursor in the room, or one before the message. Where the query of
  -- the flag succeeds, and the tables have one row for a key.
  pub update_last_activity-has_unread :
      (room msg sender preview user : Bytes) (at : ℤ) (t t' : Tables q)
      (answer : List (Activity × Option Receipt))
      → AtMostOne (of_room room) (q.rows t.chat_room_last_activity)
      → AtMostOne (is_receipt room user) (q.rows t.chat_read_receipts)
      → update_last_activity q room msg sender preview at t ≡ (ok done, t')
      → q.select_left_join
          (receipt_of q user)
          (of_room room)
          t'.chat_room_last_activity
          t'.chat_read_receipts
        ≡ ok answer
      → (has_unread q room user t' ≡ true)
        ↔ (¬ (sender ≡ user) × Behind at (cursor room user (q.rows t.chat_read_receipts)))
  unfolding has_unread activity_row set_activity
  update_last_activity-has_unread room msg sender preview user at t t' answer one few h sel =
      let (rows, kept) = update_last_activity_ok room msg sender preview at t t' h in
      let excluded = activity_row room msg sender preview at in
      let before = where_rows (of_room room) (q.rows t.chat_room_last_activity) in
      let a = upserted (of_room room) (set_activity excluded) excluded before in
      let says : Says room sender at a =
        upserted-Says room msg sender preview at before
          (where_rows-All (of_room room) (q.rows t.chat_room_last_activity)) in
      let c = cursor room user (q.rows t.chat_read_receipts) in
      let selected : where_rows (of_room room) (q.rows t'.chat_room_last_activity) ≡ a ∷ [] =
        ap (where_rows (of_room room)) rows
        ∙ where_rows-upsert (of_room room) (set_activity excluded) excluded
            (q.rows t.chat_room_last_activity) (same_refl room) (λ s e. e) one in
      let all : answer ≡ (a, c) ∷ [] = one_of (laws.left_joined _ _ _ _ answer sel) (
        ap (λ acts. left_join_rows (receipt_of q user) acts (q.rows t'.chat_read_receipts)) selected
        ∙ ap (λ rs. left_join_rows (receipt_of q user) (a ∷ []) (q.rows rs)) kept
        ∙ join_of_one room user a (q.rows t.chat_read_receipts) says.in_it few) in
      let flag : has_unread q room user t' ≡ (not (same sender user) && unread_after at c) =
        ap (λ x. scanned x (λ row. unread_case user row.0 row.1) false) (sel ∙ ap ok all)
        ∙ unread-Says room sender user at a c says in
      let meant = unread_iff sender user at c in
      (λ h. meant.0 (sym flag ∙ h), λ h. flag ∙ meant.1 h)

  update_read_receipt_ok :
      (room user msg : Bytes) (at : ℤ) (t t' : Tables q)
      → update_read_receipt q room user msg at t ≡ (ok done, t')
      → (q.rows t'.chat_read_receipts
          ≡ upsert_rows
              (is_receipt room user)
              (set_receipt (receipt_row room user msg at))
              (receipt_row room user msg at)
              (q.rows t.chat_read_receipts))
        × (t'.chat_room_last_activity ≡ t.chat_room_last_activity)
  unfolding update_read_receipt
  update_read_receipt_ok room user msg at t t' h =
      let r = receipt_row room user msg at in
      let table =
        q.upsert (is_receipt room user) (set_receipt r)
          (not (is_empty user) && refers room (q.rows t.chat_rooms)) r t.chat_read_receipts in
      let answer : table.0 ≡ ok done = ap (λ x. x.0) h in
      let after : table.1 ≡ t'.chat_read_receipts = ap (λ x. x.1.chat_read_receipts) h in
      (
        (laws.upserted _ _ _ r t.chat_read_receipts t'.chat_read_receipts
            (λ i. (answer i, after i))).1,
        sym (ap (λ x. x.1.chat_room_last_activity) h),
      )

  -- The partners of the messages of a room that are not after a cursor.
  rows_read :
      (room user : Bytes) (at : ℤ) (acts : List Activity) (receipts : List Receipt) (r : Receipt)
      → All (λ a. of_room room a ≡ true) acts
      → All (λ a. ltb_ℤ at a.last_message_at ≡ false) acts
      → where_rows (is_receipt room user) receipts ≡ r ∷ []
      → r.last_read_at ≡ at
      → All
          (λ row. unread_case user row.0 row.1 ≡ false)
          (left_join_rows (receipt_of q user) acts receipts)
  unfolding left_join_rows unread_case beside_or_null
  rows_read room user at [] receipts r inside late one time = tt
  rows_read room user at (a ∷ acts) receipts r inside late one time =
      let partners : where_rows (receipt_of q user a) receipts ≡ r ∷ [] =
        ap (λ k. where_rows (is_receipt k user) receipts) ((same_iff a.room_id room).0 inside.0)
        ∙ one in
      rw (partners, time, late.0)
        (elim (Bool-cases (sent_by user a.last_sender_id)) [
          | inl y ↦ rw y (refl, rows_read room user at acts receipts r inside.1 late.1 one time)
          | inr n ↦ rw n (refl, rows_read room user at acts receipts r inside.1 late.1 one time)
        ])

  first_row :
      (rows : List (Activity × Option Receipt)) (f : Activity × Option Receipt → Bool)
      → All (λ row. f row ≡ false) rows
      → scanned (ok rows) f false ≡ false
  first_row [] f h = refl
  first_row (row ∷ rows) f h = h.0

  answer_read :
      (answer : Result Bytes (List (Activity × Option Receipt)))
      (f : Activity × Option Receipt → Bool)
      → ((rows : List (Activity × Option Receipt))
          → answer ≡ ok rows
          → All (λ row. f row ≡ false) rows)
      → scanned answer f false ≡ false
  answer_read (err e) f h = refl
  answer_read (ok rows) f h = first_row rows f (h rows refl)

  -- After UpdateReadReceipt has set the cursor of a user at a time that is not before the last message
  -- of the room, the room is not unread for the user, whether or not the query of the flag succeeds.
  -- It is assumed that the tables have one row for a key.
  pub update_read_receipt-has_unread :
      (room user msg : Bytes) (at : ℤ) (t t' : Tables q)
      → AtMostOne (is_receipt room user) (q.rows t.chat_read_receipts)
      → All
          (λ a. ltb_ℤ at a.last_message_at ≡ false)
          (where_rows (of_room room) (q.rows t.chat_room_last_activity))
      → update_read_receipt q room user msg at t ≡ (ok done, t')
      → has_unread q room user t' ≡ false
  unfolding has_unread set_receipt
  update_read_receipt-has_unread room user msg at t t' few late h =
      let (rows, kept) = update_read_receipt_ok room user msg at t t' h in
      let r = receipt_row room user msg at in
      let before = where_rows (is_receipt room user) (q.rows t.chat_read_receipts) in
      let one : where_rows (is_receipt room user) (q.rows t'.chat_read_receipts)
          ≡ upserted (is_receipt room user) (set_receipt r) r before ∷ [] =
        ap (where_rows (is_receipt room user)) rows
        ∙ where_rows-upsert (is_receipt room user) (set_receipt r) r (q.rows t.chat_read_receipts)
            (rw (same_refl room, same_refl user) refl) (λ s e. e) few in
      answer_read
        (q.select_left_join (receipt_of q user) (of_room room) t'.chat_room_last_activity
          t'.chat_read_receipts)
        (λ row. unread_case user row.0 row.1)
        λ answer sel. All-Shuffled _ (laws.left_joined _ _ _ _ answer sel) (
          rows_read room user at _ _ _
            (where_rows-All (of_room room) (q.rows t'.chat_room_last_activity))
            (subst
              (λ c.
                All (λ a. ltb_ℤ at a.last_message_at ≡ false)
                  (where_rows (of_room room) (q.rows c)))
              (sym kept) late)
            one (upserted_time room user msg at before))
