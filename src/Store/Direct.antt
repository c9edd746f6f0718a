-- ===== src/Store/Direct.antt =====
-- `CreateOrGetDirectConversation` and `GetUserRooms` of app/repository/mongodb.go.
use chat_service.Text.Order.{sort_strings}
use chat_service.Prelude.{
  ◌==◌, length, map, ltb, false, ◌∷◌, ◌||◌, ok, if◌then◌else◌, err, ◌&&◌, true, pos, Bool, Result,
  List, ℤ, [],
}
use chat_service.Store.Engine.{Done, Engine}
use chat_service.Store.Repository.{Method, Repository}
use chat_service.Store.Documents.{ConversationDoc}
use chat_service.Store.Groups.{ConversationDetail, doc_to_conversation_detail}
use chat_service.Server.Listing.{UserRoomSummary}
use chat_service.Server.Calls.{zero_time}
use chat_service.RoomId.{contains, dm_room_id, split_room_id}
use chat_service.Text.{has_prefix, is_empty, same, Bytes, lit}

abbrev pub direct_type : Bytes
direct_type = lit "DIRECT"

-- conversationDoc{}
abbrev pub zero_doc : ConversationDoc
zero_doc = record {
  id = [];
  type = [];
  participants = [];
  group_name = [];
  group_photo = [];
  description = [];
  member_count = pos 0;
  last_message = [];
  last_message_id = [];
  last_message_at = zero_time;
  created_by = [];
  created_at = zero_time;
}

-- The document that is inserted.
unfoldable pub direct_doc : Bytes → Bytes → Bytes → ℤ → ConversationDoc
direct_doc user_a user_b created_by now = record zero_doc {
  id = dm_room_id user_a user_b;
  type = direct_type;
  participants = sort_strings (user_a ∷ user_b ∷ []);
  created_by = created_by;
  created_at = now;
}

-- an array that is equal to another
unfoldable pub same_all : List Bytes → List Bytes → Bool
same_all [] [] = true
same_all (a ∷ rest) (b ∷ bs) = same a b && same_all rest bs
same_all _ _ = false

-- `filter`
abbrev pub is_direct : List Bytes → ConversationDoc → Bool
is_direct participants d = same d.type direct_type && same_all d.participants participants

-- `_ = FindOne(...).Decode(&existing)`
abbrev pub or_zero : Result Bytes ConversationDoc → ConversationDoc
or_zero (err e) = zero_doc
or_zero (ok d) = d

-- The test on the length and the first three bytes, and what it makes of the id.
unfoldable pub members_of_id : Bytes → List Bytes
members_of_id room =
    let parts = split_room_id room in
    if ltb 3 (length room) && (has_prefix room (lit "dm:") || has_prefix room (lit "dm-"))
    then (if length parts == 2 then parts else [])
    else []

-- A row of the pipeline: `_id`, `lastText`, `lastSentAt`.
pub record Grouped : Type 0 where
  pub room_id : Bytes
  pub last_text : Bytes
  pub last_sent_at : ℤ

-- the loop over the rows of the pipeline
unfoldable pub grouped_summaries : List Grouped → List UserRoomSummary
unfolding members_of_id
grouped_summaries [] = []
grouped_summaries (g ∷ gs) =
    let rest = grouped_summaries gs in
    if is_empty g.room_id
    then rest
    else record {
      room_id = g.room_id;
      last_message = g.last_text;
      last_message_at = g.last_sent_at;
      member_ids = members_of_id g.room_id;
    }
      ∷ rest

unfoldable pub summary_of : ConversationDoc → UserRoomSummary
summary_of d = record {
  room_id = d.id;
  last_message = d.last_message;
  last_message_at = d.last_message_at;
  member_ids = d.participants;
}

module _ (db : Engine) where
  -- What is done with the conversation that is found under the participants.
  unfoldable pub found_direct :
      Bytes → ConversationDoc → ConversationDoc → Method db ConversationDetail
  found_direct conv_id doc existing s =
      let detail = record (doc_to_conversation_detail existing) { conversation_id = conv_id } in
      let c = (db.upsert_one (λ d. same d.id conv_id) (λ d. d) doc s.conversations).1 in
      if same existing.id conv_id
      then (ok detail, s)
      else (ok detail, record s { conversations = c })

  -- IsDuplicateKeyError of the driver
  module _ (is_duplicate : Bytes → Bool) where
    unfoldable pub inserted_direct :
        Bytes → ConversationDoc → Result Bytes Done → Method db ConversationDetail
    inserted_direct conv_id doc (ok d) s = (ok (doc_to_conversation_detail doc), s)
    inserted_direct conv_id doc (err e) s =
        if is_duplicate e
        then (
          ok (
              doc_to_conversation_detail
                (or_zero (db.find_one (λ d. same d.id conv_id) s.conversations))),
          s,
        )
        else (err e, s)

    abbrev pub find_or_insert :
        Result Bytes ConversationDoc → Bytes → ConversationDoc → Method db ConversationDetail
    find_or_insert (ok existing) conv_id doc s = found_direct conv_id doc existing s
    find_or_insert (err e) conv_id doc s =
        let (r, c) = db.insert_one doc s.conversations in
        inserted_direct conv_id doc r (record s { conversations = c })

    -- CreateOrGetDirectConversation
    unfoldable pub create_or_get_direct_conversation :
        Bytes → Bytes → Bytes → ℤ → Method db ConversationDetail
    unfolding found_direct inserted_direct direct_doc
    create_or_get_direct_conversation user_a user_b created_by now s =
        let doc = direct_doc user_a user_b created_by now in
        if is_empty user_a || is_empty user_b
        then (err (lit "userA and userB are required"), s)
        else find_or_insert (db.find_one (is_direct doc.participants) s.conversations) doc.id doc s

  abbrev pub conversations_found : Result Bytes (List ConversationDoc) → List UserRoomSummary
  conversations_found (err e) = []
  conversations_found (ok ds) = map summary_of ds

  abbrev pub grouped_found : Result Bytes (List Grouped) → Result Bytes (List UserRoomSummary)
  grouped_found (err e) = err e
  grouped_found (ok gs) = ok (grouped_summaries gs)

  abbrev pub or_grouped :
      List UserRoomSummary → Result Bytes (List Grouped) → Result Bytes (List UserRoomSummary)
  or_grouped [] gs = grouped_found gs
  or_grouped (r ∷ rs) gs = ok (r ∷ rs)

  -- GetUserRooms; the rows that the pipeline yields for the user are an argument.
  unfoldable pub get_user_rooms :
      Result Bytes (List Grouped) → Bytes → Repository db → Result Bytes (List UserRoomSummary)
  unfolding grouped_summaries summary_of
  get_user_rooms grouped user s =
      or_grouped
        (conversations_found
          (db.find (λ d. contains d.participants user || same d.created_by user) s.conversations))
        grouped
