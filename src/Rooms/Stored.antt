-- ===== src/Rooms/Stored.antt =====
-- `UpsertRoom` and `GetRoom` of app/repository/postgres.go: what is stored is found again.
use chat_service.Prelude.{
  arith, ◌∙◌, not, ap, false, sym, Option, none, some, refl, [], err, ◌∷◌, ok, List, Result, ◌≡◌,
}
use chat_service.Rooms.{
  ChatRoom, RoomMeta, Tables, and_then, get_members, get_room, has_id, insert_member,
  insert_members, insert_room, null_string, on_success, or_empty, room_meta, room_row, upsert_room,
  with_members, first_room,
}
use chat_service.Rooms.Statements.{IsSql, Sql, where_rows, insert_rows}
use chat_service.Rooms.Rows.{where_rows-insert}
use chat_service.Rooms.Shuffled.{none_from}
use chat_service.Store.Engine.{Done, done}
use chat_service.Text.{same_refl, is_empty, Bytes}

pub null_string-or_empty : (s : Bytes) → or_empty (null_string s) ≡ s
unfolding null_string or_empty
null_string-or_empty [] = refl
null_string-or_empty (c ∷ s) = refl

-- Go's `a, err := x; if err != nil { return err }; f(a)` succeeded.
pub and_then_ok {ℓ κ} :
    {A : Type ℓ} {B : Type κ} (x : Result Bytes A) (f : A → Result Bytes B) (b : B)
    → and_then x f ≡ ok b
    → (a : A) × (x ≡ ok a) × (f a ≡ ok b)
and_then_ok (err e) f b h = cc
and_then_ok (ok a) f b h = (a, refl, h)

pub done_only : (d : Done) → d ≡ done
done_only done = refl

pub ok_same {ℓ κ} : {E : Type κ} {A : Type ℓ} {x y : A} → Path (Result E A) (ok x) (ok y) → x ≡ y
ok_same h = cc

pub some_same {ℓ} : {A : Type ℓ} {x y : A} → Path (Option A) (some x) (some y) → x ≡ y
some_same h = cc

module _ (q : Sql) (laws : IsSql q) where
  -- A statement after one that succeeded.
  pub on_success_ok :
      (x : Result Bytes Done × Tables q) (f : Tables q → Result Bytes Done × Tables q)
      (t' : Tables q)
      → on_success q x f ≡ (ok done, t')
      → (x.0 ≡ ok done) × (f x.1 ≡ (ok done, t'))
  on_success_ok (err e, t) f t' h = cc
  on_success_ok (ok done, t) f t' h = (refl, h)

  chat_rooms-on_success :
      (x : Result Bytes Done × Tables q) (f : Tables q → Result Bytes Done × Tables q)
      → ((t : Tables q) → (f t).1.chat_rooms ≡ t.chat_rooms)
      → (on_success q x f).1.chat_rooms ≡ x.1.chat_rooms
  chat_rooms-on_success (err e, t) f h = refl
  chat_rooms-on_success (ok d, t) f h = h t

  chat_rooms-insert_members :
      (room : Bytes) (us : List Bytes) (t : Tables q)
      → (insert_members q room us t).1.chat_rooms ≡ t.chat_rooms
  unfolding insert_members insert_member
  chat_rooms-insert_members room [] t = refl
  chat_rooms-insert_members room (u ∷ us) t =
      chat_rooms-on_success (insert_member q room u t) (insert_members q room us)
        (chat_rooms-insert_members room us)

  row_from :
      (room : Bytes) (t : Tables q) (m : RoomMeta) (rs : List ChatRoom)
      → q.select (has_id room) t.chat_rooms ≡ ok rs
      → with_members q (first_room q rs) t ≡ ok (some m)
      → (r : ChatRoom) × (rs : List ChatRoom) × (members : List Bytes) × (q.select
            (has_id room)
            t.chat_rooms
          ≡ ok (r ∷ rs))
        × (get_members q r.id t ≡ ok members)
        × (m ≡ room_meta r members)
  unfolding with_members
  row_from room t m [] sel h = cc
  row_from room t m (r ∷ rs) sel h =
      let (members, got, e) =
        and_then_ok (get_members q r.id t) (λ members. ok (some (room_meta r members))) (some m)
          h in
      (r, rs, members, sel, got, sym (some_same (ok_same e)))

  no_rows_from :
      (t : Tables q) (rs : List ChatRoom) → with_members q (first_room q rs) t ≡ ok none → rs ≡ []
  unfolding with_members
  no_rows_from t [] h = refl
  no_rows_from t (r ∷ rs) h =
      let (members, got, e) =
        and_then_ok (get_members q r.id t) (λ members. ok (some (room_meta r members))) none h in
      cc

  -- GetRoom answers with a row that has the id.
  pub get_room_row :
      (room : Bytes) (t : Tables q) (m : RoomMeta)
      → get_room q room t ≡ ok (some m)
      → (r : ChatRoom) × (rs : List ChatRoom) × (members : List Bytes) × (q.select
            (has_id room)
            t.chat_rooms
          ≡ ok (r ∷ rs))
        × (get_members q r.id t ≡ ok members)
        × (m ≡ room_meta r members)
  unfolding get_room
  get_room_row room t m h =
      let (rs, sel, rest) =
        and_then_ok (q.select (has_id room) t.chat_rooms) (λ rs. with_members q (first_room q rs) t)
          (some m) h in
      row_from room t m rs sel rest

  -- GetRoom answers `nil` only where no row has the id.
  pub no_row_found :
      (room : Bytes) (t : Tables q)
      → get_room q room t ≡ ok none
      → where_rows (has_id room) (q.rows t.chat_rooms) ≡ []
  unfolding get_room
  no_row_found room t h =
      let (rs, sel, rest) =
        and_then_ok (q.select (has_id room) t.chat_rooms) (λ rs. with_members q (first_room q rs) t)
          none h in
      none_from (laws.selected (has_id room) t.chat_rooms rs sel) (no_rows_from t rs rest)

  pub insert_room_ok :
      (m : RoomMeta) (t t' : Tables q)
      → insert_room q m t ≡ (ok done, t')
      → (is_empty m.created_by ≡ false)
        × (q.rows t'.chat_rooms ≡ insert_rows (has_id m.room_id) (room_row m) (q.rows t.chat_rooms))
        × (t'.chat_room_members ≡ t.chat_room_members)
  unfolding insert_room
  insert_room_ok m t t' h =
      let table =
        q.insert_new (has_id m.room_id) (not (is_empty m.created_by)) (room_row m) t.chat_rooms in
      let answer : table.0 ≡ ok done = ap (λ x. x.0) h in
      let after : table.1 ≡ t'.chat_rooms = ap (λ x. x.1.chat_rooms) h in
      let (allowed, rows) =
        laws.inserted _ _ (room_row m) t.chat_rooms t'.chat_rooms (λ i. (answer i, after i)) in
      (ground (arith, allowed), rows, sym (ap (λ x. x.1.chat_room_members) h))

  -- What a run of UpsertRoom that succeeds on a new id leaves in chat_rooms.
  pub upsert_room_rows :
      (m : RoomMeta) (t t' : Tables q)
      → where_rows (has_id m.room_id) (q.rows t.chat_rooms) ≡ []
      → upsert_room q m t ≡ (ok done, t')
      → where_rows (has_id m.room_id) (q.rows t'.chat_rooms) ≡ room_row m ∷ []
  unfolding upsert_room room_row
  upsert_room_rows m t t' fresh h =
      let first = insert_room q m t in
      let (one, more) = on_success_ok first (insert_members q m.room_id m.member_ids) t' h in
      let (created, rows, members) = insert_room_ok m t first.1 (λ i. (one i, first.1)) in
      let kept : t'.chat_rooms ≡ first.1.chat_rooms =
        sym (ap (λ x. x.1.chat_rooms) more)
        ∙ chat_rooms-insert_members m.room_id m.member_ids first.1 in
      ap (λ c. where_rows (has_id m.room_id) (q.rows c)) kept
      ∙ ap (where_rows (has_id m.room_id)) rows
      ∙ where_rows-insert (has_id m.room_id) (room_row m) (q.rows t.chat_rooms)
          (same_refl m.room_id) fresh
