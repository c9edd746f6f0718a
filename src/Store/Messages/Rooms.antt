-- ===== src/Store/Messages/Rooms.antt =====
-- Which messages the history of a direct-message room holds.
use chat_service.RoomId.Legacy.{aliases_sound}
use chat_service.Store.Repository.{Repository}
use chat_service.RoomId.Canonical.{IsUserId}
use chat_service.Proto.{ServerMessage}
use chat_service.Store.Engine.{IsEngine, Engine}
use chat_service.Prelude.{
  if◌then◌else◌, All-map, ◌&&◌, err, Result, [], ok, ◌≤◌, inr, subst, ◌||◌, refl, inl, ◌∷◌, eqb_ℤ,
  negsuc, Bool-cases, length, map, arith, ◌⊎◌, true, Bool, ◌≡◌, All, ℕ, pos, List, ℤ,
}
use chat_service.Store.Messages.{
  newest_first, messages_of, query_messages, is_before, get_messages, get_messages_before,
  limit_or_default, is_in_rooms,
}
use chat_service.Store.Documents.{doc_to_server_message, MessageDoc}
use chat_service.RoomId.{room_id_aliases, dm_room_id, normalize_room_id, contains}
use chat_service.Text.{same_iff, same, Bytes}

contains-All :
    (P : Bytes → Type 0) (ids : List Bytes) (id : Bytes) → All P ids → contains ids id ≡ true → P id
unfolding contains
contains-All P [] id h e = absurd cc
contains-All P (x ∷ xs) id (p, ps) e = elim (Bool-cases (same x id)) [
  | inl s ↦ subst P ((same_iff x id).0 s) p
  | inr s ↦ contains-All P xs id ps (ground arith)
]

-- The document stands under a spelling of the room.
abbrev pub InRoom : Bytes → MessageDoc → Type 0
InRoom room d = (normalize_room_id d.conversation_id ≡ room) ⊎ (normalize_room_id d.room_id ≡ room)

in_rooms :
    (room : Bytes) (ids : List Bytes) (d : MessageDoc)
    → All (λ id. normalize_room_id id ≡ room) ids
    → is_in_rooms ids d ≡ true
    → InRoom room d
unfolding is_in_rooms
in_rooms room ids d h e = elim (Bool-cases (contains ids d.conversation_id)) [
  | inl c ↦ inl (contains-All (λ id. normalize_room_id id ≡ room) ids d.conversation_id h c)
  | inr c ↦ inr (contains-All (λ id. normalize_room_id id ≡ room) ids d.room_id h (ground arith))
]

limit_or_default_kept :
    (limit : ℤ) → limit_or_default (pos (limit_or_default limit)) ≡ limit_or_default limit
unfolding limit_or_default
limit_or_default_kept (pos n) = ground arith
limit_or_default_kept (negsuc n) = refl

-- What a history is made of.
abbrev pub History : Bytes → ℤ → ℕ → List ServerMessage → Type 0
History room before limit ms =
    (ds : List MessageDoc) × (ms ≡ map doc_to_server_message ds)
    × All (InRoom room) ds
    × All (λ d. (eqb_ℤ before (pos 0) || is_before before d) ≡ true) ds
    × (length ds ≤ limit)

module _ (db : Engine) (laws : IsEngine db) (room : Bytes) (before : ℤ) (p : MessageDoc → Bool)
    (sound : (d : MessageDoc)
      → p d ≡ true
      → InRoom room d × ((eqb_ℤ before (pos 0) || is_before before d) ≡ true)) where
  queried :
      (limit : ℕ) (s : Repository db) (ms : List ServerMessage)
      → query_messages db p limit s ≡ ok ms
      → History room before limit ms
  unfolding query_messages messages_of
  queried limit s ms h = answered (db.find_sorted p newest_first limit s.messages) refl h
    where
      answered :
          (r : Result Bytes (List MessageDoc))
          → db.find_sorted p newest_first limit s.messages ≡ r
          → messages_of db r ≡ ok ms
          → History room before limit ms
      answered (err e) q m = absurd cc
      answered (ok ds) q m =
          let found = laws.found_sorted p newest_first limit s.messages ds q in
          (
            ds,
            (let e : ms ≡ map doc_to_server_message ds = cc in e),
            All-map (λ d. p d ≡ true) (InRoom room) (λ d e. (sound d e).0) ds found.0,
            All-map (λ d. p d ≡ true) (λ d. (eqb_ℤ before (pos 0) || is_before before d) ≡ true)
                (λ d e. (sound d e).1) ds found.0,
            found.1,
          )

module _ (db : Engine) (laws : IsEngine db) (a b : Bytes) (ha : IsUserId a) (hb : IsUserId b)
    (la : length a ≡ 36) (lb : length b ≡ 36) where
  -- For two user ids of 36 bytes: what GetMessagesBefore returns for their room are messages that
  -- stand under a spelling of that very room, and, where a time is given, before that time, at most
  -- as many as asked for, or 50 where the limit is 0 or less.
  pub get_messages_before_sound :
      (before limit : ℤ) (s : Repository db) (ms : List ServerMessage)
      → get_messages_before db (dm_room_id a b) before limit s ≡ ok ms
      → History (dm_room_id a b) before (limit_or_default limit) ms
  unfolding get_messages_before get_messages
  get_messages_before_sound before limit s ms h = elim (Bool-cases (eqb_ℤ before (pos 0))) [
    | inl e ↦
        subst (λ n. History (dm_room_id a b) before n ms) (limit_or_default_kept limit)
          (queried db laws (dm_room_id a b) before (is_in_rooms (room_id_aliases (dm_room_id a b)))
            (λ d i. (
              in_rooms (dm_room_id a b) (room_id_aliases (dm_room_id a b)) d
                  (aliases_sound a b ha hb la lb) i,
              ground (arith, e),
            ))
            (limit_or_default (pos (limit_or_default limit))) s ms
            (subst
              (λ t.
                (if t
                  then get_messages db (dm_room_id a b) (pos (limit_or_default limit)) s
                  else query_messages db
                      (λ d. is_in_rooms (room_id_aliases (dm_room_id a b)) d && is_before before d)
                      (limit_or_default limit) s)
                ≡ ok ms)
              e h))
    | inr e ↦
        queried db laws (dm_room_id a b) before
          (λ d. is_in_rooms (room_id_aliases (dm_room_id a b)) d && is_before before d)
          (λ d i. (
            in_rooms (dm_room_id a b) (room_id_aliases (dm_room_id a b)) d
                (aliases_sound a b ha hb la lb) (ground arith),
            ground arith,
          ))
          (limit_or_default limit) s ms
          (subst
            (λ t.
              (if t
                then get_messages db (dm_room_id a b) (pos (limit_or_default limit)) s
                else query_messages db
                    (λ d. is_in_rooms (room_id_aliases (dm_room_id a b)) d && is_before before d)
                    (limit_or_default limit) s)
              ≡ ok ms)
            e h)
  ]
