-- ===== src/Server/Incoming/Broadcasts.antt =====
-- What `processIncoming` may send to a room, and what it may store.
use chat_service.Text.{is_empty, Bytes}
use chat_service.RoomId.{normalize_room_id}
use chat_service.Server.Calls.{
  store_read_receipt, when_some, rooms_read_receipt, when, Outcome, MessageStore, Server,
  rooms_last_activity, store_save, hub_broadcast, Call,
}
use chat_service.Server.Incoming.{
  paper_clip, sender_receipts, persist_message, preview, on_event, on_delete, process_incoming,
}
use chat_service.Proto.{
  reaction, read_receipt, typing_stop, typing_start, edit, delete, ServerMessage, ClientMessage,
  EventType,
}
use chat_service.Prelude.{
  inr, ◌++◌, length-take-le, inl, not, Bool-cases, ℤ, ◌&&◌, take, ltb, if◌then◌else◌, ◌≤◌, ok, ◌||◌,
  refl, none, some, false, arith, Option, true, [], length, ◌∷◌, ◌≡◌, ℕ, All, Bool, List,
}

abbrev pub broadcasts : List Call → List ServerMessage
broadcasts [] = []
broadcasts (hub_broadcast m publish ∷ cs) = m ∷ broadcasts cs
broadcasts (c ∷ cs) = broadcasts cs

abbrev pub saves : List Call → List ServerMessage
saves [] = []
saves (store_save m ∷ cs) = m ∷ saves cs
saves (c ∷ cs) = saves cs

-- The lengths of the previews that are written to the room list.
abbrev pub previews : List Call → List ℕ
previews [] = []
previews (rooms_last_activity room id user text at ∷ cs) = length text ∷ previews cs
previews (c ∷ cs) = previews cs

abbrev pub is_delete : EventType → Bool
is_delete e = elim e [ delete ↦ true | _ ↦ false ]

abbrev pub is_edit : EventType → Bool
is_edit e = elim e [ edit ↦ true | _ ↦ false ]

-- Under the canonical room of the frame and in the name of its sender.
abbrev pub Speaks : ClientMessage → ServerMessage → Type 0
Speaks m sm = (sm.room_id ≡ normalize_room_id m.room_id) × (sm.user_id ≡ m.user_id)

delete-Speaks :
    (o : Option MessageStore) (m : ClientMessage)
    → All (Speaks m) (broadcasts (on_delete o m).calls)
unfolding on_delete
delete-Speaks none m = tt
delete-Speaks (some st) m = ground arith

on_event-Speaks :
    (e : EventType) (s : Server) (m : ClientMessage)
    → All (Speaks m) (broadcasts (on_event e s m).calls)
unfolding on_event
on_event-Speaks typing_start s m = ((refl, refl), tt)
on_event-Speaks typing_stop s m = ((refl, refl), tt)
on_event-Speaks read_receipt s m = ground arith
on_event-Speaks reaction s m = ground arith
on_event-Speaks delete s m = delete-Speaks s.msg_repo m
on_event-Speaks edit s m = ground arith
on_event-Speaks _ s m = ground arith

-- Whatever frame a client sends, all that is broadcast for it goes to the canonical id of the room
-- that the frame names, in the name of the user that it names.
pub broadcasts-Speaks :
    (s : Server) (m : ClientMessage) → All (Speaks m) (broadcasts (process_incoming s m).calls)
unfolding process_incoming
broadcasts-Speaks s m = on_event-Speaks m.event_type s m

abbrev pub deletes : List ServerMessage → Bool
deletes [] = false
deletes (m ∷ ms) = is_delete m.event_type || deletes ms

abbrev edits : List ServerMessage → Bool
edits [] = false
edits (m ∷ ms) = is_edit m.event_type || edits ms

-- The store that the server has says that the user owns the message, and has deleted it.
abbrev pub DeletedByOwner : Server → ClientMessage → Type 0
DeletedByOwner s m =
    (st : MessageStore) × (s.msg_repo ≡ some st)
    × (st.soft_delete_message_by_owner m.message_id m.user_id ≡ ok true)

delete_authorised :
    (o : Option MessageStore) (m : ClientMessage)
    → deletes (broadcasts (on_delete o m).calls) ≡ true
    → (st : MessageStore) × (o ≡ some st)
      × (st.soft_delete_message_by_owner m.message_id m.user_id ≡ ok true)
unfolding on_delete
delete_authorised none m h = cc
delete_authorised (some st) m h = (st, refl, ground arith)

on_event-deletes :
    (e : EventType) (s : Server) (m : ClientMessage)
    → m.event_type ≡ e
    → deletes (broadcasts (on_event e s m).calls) ≡ true
    → DeletedByOwner s m
unfolding on_event
on_event-deletes typing_start s m e h = absurd (ground (arith, e))
on_event-deletes typing_stop s m e h = absurd (ground (arith, e))
on_event-deletes read_receipt s m e h = absurd (ground arith)
on_event-deletes reaction s m e h = absurd (ground arith)
on_event-deletes delete s m e h = delete_authorised s.msg_repo m h
on_event-deletes edit s m e h = absurd (ground arith)
on_event-deletes _ s m e h = absurd (ground arith)

-- A deletion is broadcast, whatever the frame, only if the message store has answered that it
-- deleted the message of the frame as one of the user that the frame names.
pub deletes_authorised :
    (s : Server) (m : ClientMessage)
    → deletes (broadcasts (process_incoming s m).calls) ≡ true
    → DeletedByOwner s m
unfolding process_incoming
deletes_authorised s m h = on_event-deletes m.event_type s m refl h

-- Nothing is stored before the goroutine starts, which broadcasts nothing; and what it stores is the
-- one message that was broadcast.
abbrev pub StoresWhatWasSent : Outcome → Type 0
StoresWhatWasSent o =
    (saves o.calls ≡ [])
    × (broadcasts o.background ≡ [])
    × All (λ sm. o.calls ≡ hub_broadcast sm true ∷ []) (saves o.background)

delete-saves : (o : Option MessageStore) (m : ClientMessage) → StoresWhatWasSent (on_delete o m)
unfolding on_delete
delete-saves none m = (refl, refl, tt)
delete-saves (some st) m = ground arith

on_event-saves :
    (e : EventType) (s : Server) (m : ClientMessage) → StoresWhatWasSent (on_event e s m)
unfolding on_event
on_event-saves typing_start s m = (refl, refl, tt)
on_event-saves typing_stop s m = (refl, refl, tt)
on_event-saves read_receipt s m = ground arith
on_event-saves reaction s m = ground arith
on_event-saves delete s m = delete-saves s.msg_repo m
on_event-saves edit s m = ground arith
on_event-saves _ s m = ground arith

-- Whatever frame a client sends, only its goroutine stores a message, and only one that has been
-- broadcast and published before, the same and no other.
pub stores_what_was_sent :
    (s : Server) (m : ClientMessage) → StoresWhatWasSent (process_incoming s m)
unfolding process_incoming
stores_what_was_sent s m = on_event-saves m.event_type s m

clipped : (t : Bytes) → length (if ltb 120 (length t) then take 120 t else t) ≤ 120
clipped t = elim (Bool-cases (ltb 120 (length t))) [
  | inl e ↦ rw e (length-take-le 120 t)
  | inr e ↦ rw e (ground arith)
]

preview-le : (m : ServerMessage) → length (preview m) ≤ 120
unfolding preview
preview-le m =
    clipped (
      if is_empty m.text && not (is_empty m.media_name) then paper_clip ++ m.media_name else m.text)

-- The previews that the goroutine of persistMessage writes to the room list have at most 120 bytes,
-- whatever the text or the name of the attached file is.
pub persist_message-previews :
    (s : Server) (m : ServerMessage) → All (λ n. n ≤ 120) (previews (persist_message s m))
unfolding persist_message sender_receipts
persist_message-previews s m = rest s.msg_repo s.has_pg_rooms
  where
    receipts :
        (o : Option MessageStore) (p : Bool) (at : ℤ)
        → All
            (λ n. n ≤ 120)
            (previews (
              when p (
                rooms_read_receipt m.room_id m.user_id m.message_id at
                ∷ when_some o (store_read_receipt m.room_id m.user_id m.message_id at ∷ []))))
    receipts none true at = tt
    receipts none false at = tt
    receipts (some st) true at = tt
    receipts (some st) false at = tt

    rest :
        (o : Option MessageStore) (p : Bool)
        → All
            (λ n. n ≤ 120)
            (previews (
              when_some o (store_save m ∷ [])
              ++ when p (
                  rooms_last_activity m.room_id m.message_id m.user_id (preview m) m.sent_at_unix_ms
                  ∷ sender_receipts s m)))
    rest none true = (preview-le m, receipts s.msg_repo (not (is_empty m.user_id)) _)
    rest none false = tt
    rest (some st) true = (preview-le m, receipts s.msg_repo (not (is_empty m.user_id)) _)
    rest (some st) false = tt
