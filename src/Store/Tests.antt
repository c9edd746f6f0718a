-- ===== src/Store/Tests.antt =====
-- Runs of the repository over lists, and the theorems about it.
use chat_service.Text.Order.{sort_strings}
use chat_service.Text.Split.{join}
use chat_service.Text.Trim.{trim_space}
use chat_service.Store.Reading.Unread.{mark_message_read-get_unread_count}
use chat_service.Server.Incoming.Broadcasts.{broadcasts, deletes}
use chat_service.Text.Decimal.{itoa}
use chat_service.Store.Service.{deletion_is_stored, message_store_of}
use chat_service.RoomId.Tests.{uuid_b, uuid_a}
use chat_service.Store.Engine.{count_where}
use chat_service.Store.Lists.{lists-IsEngine, keep, update_first, lists}
use chat_service.Store.Messages.Owners.{soft_delete_message_by_owner_lem, DeletionTold, Deleted}
use chat_service.Server.Incoming.{after_delete, on_delete, on_event, process_incoming}
use chat_service.Server.Calls.{zero_time, Server}
use chat_service.RoomId.{normalize_room_id}
use chat_service.Server.History
use chat_service.Server.History.{in_room, page_limit, GetMessagesRequest}
use chat_service.Server.History.Pages.{get_messages_page, Answers, map-take}
use chat_service.Prelude.{
  ap, map, take, length, ltb, ℕ, ◌<◌, arith, List, err, ◌⊎◌, true, ok, ◌++◌, refl, ◌≡◌, [], some,
  false, pos, ◌∷◌, Bool,
}
use chat_service.Store.Groups.Members.{Counted}
use chat_service.RoomId.{
  add_alias, add_aliases, canonical_dm, room_id_aliases, dm_room_id, contains,
}
use chat_service.Store.Groups.{
  group_doc, group_type, final_members, doc_to_conversation_detail, ConversationDetail,
}
use chat_service.Store.Messages.{get_messages}
use chat_service.Store.Messages.{
  is_before, is_in_rooms, limit_or_default, is_owned_by, has_id, messages_of, deletable,
  query_messages, matched, get_messages_before, soft_delete_message_by_owner,
}
use chat_service.Store.Reading.{get_unread_count, read_in, mark_message_read}
use chat_service.Store.Repository.{Repository}
use chat_service.Store.Documents.{
  MessageDoc, ConversationDoc, doc_to_server_message, MessageReadDoc, message_doc,
}
use chat_service.Proto.{
  delete, image, zero_client_message, zero_server_message, ClientMessage, ServerMessage,
}
use chat_service.Text.{is_empty, same, lit, Bytes}

abbrev carol : Bytes
carol = lit "carol"

abbrev hello : ServerMessage
hello = record zero_server_message {
  room_id = lit "group:x";
  user_id = carol;
  message_id = lit "m1";
  text = lit "hi";
  type = image;
  sent_at_unix_ms = pos 5;
}

hello_doc : MessageDoc
unfolding message_doc
hello_doc = message_doc (lit "new") (pos 9) hello

abbrev unread_doc : MessageReadDoc
unread_doc = record {
  id = lit "m1";
  conversation_id = lit "group:x";
  sender_id = carol;
  content = lit "hi";
  read_by = carol ∷ [];
}

abbrev repo : Repository lists
repo = record {
  conversations = [];
  group_members = [];
  messages = hello_doc ∷ [];
  message_read = unread_doc ∷ [];
  receipts = [];
  media = [];
}

mark_message_read-get_unread_count_example :
    (get_unread_count lists
        (lit "dave")
        (lit "group:x")
        (mark_message_read lists (pos 9) (lit "group:x") (lit "dave") [] repo).1
      ≡ ok (pos 0))
    ⊎ ((e : Bytes) × (get_unread_count lists
            (lit "dave")
            (lit "group:x")
            (mark_message_read lists (pos 9) (lit "group:x") (lit "dave") [] repo).1
          ≡ err e))
unfolding mark_message_read read_in count_where same
mark_message_read-get_unread_count_example =
    mark_message_read-get_unread_count lists lists-IsEngine (pos 9) (lit "group:x") (lit "dave") 1
      repo (mark_message_read lists (pos 9) (lit "group:x") (lit "dave") [] repo).1 refl refl

soft_delete_message_by_owner_lem_example :
    DeletionTold
      (lit "m1")
      carol
      true
      (hello_doc ∷ [])
      (soft_delete_message_by_owner lists (lit "m1") carol repo).1.messages
    × ((soft_delete_message_by_owner lists (lit "m1") carol repo).1 ≡ record repo {
      messages = (soft_delete_message_by_owner lists (lit "m1") carol repo).1.messages;
    })
unfolding soft_delete_message_by_owner matched update_first deletable has_id is_owned_by hello_doc
    message_doc same
soft_delete_message_by_owner_lem_example =
    soft_delete_message_by_owner_lem lists lists-IsEngine (lit "m1") carol true repo
      (soft_delete_message_by_owner lists (lit "m1") carol repo).1 refl

-- A message of a direct-message room, and its history.
abbrev pair_room : Bytes
pair_room = lit "dm:0b5e7a9c-1111-4222-8333-444455556666:0b5e7a9c-1111-4222-8333-444455557777"

abbrev pair_doc : MessageDoc
unfolding hello_doc message_doc
pair_doc = record hello_doc { conversation_id = pair_room; room_id = pair_room }

abbrev pair_repo : Repository lists
pair_repo = record repo { messages = pair_doc ∷ [] }

pair_history :
    get_messages_before lists (dm_room_id uuid_a uuid_b) (pos 7) (pos 20) pair_repo
    ≡ ok (doc_to_server_message pair_doc ∷ [])
unfolding get_messages_before query_messages messages_of keep limit_or_default is_in_rooms is_before
    room_id_aliases canonical_dm add_aliases add_alias trim_space dm_room_id contains hello_doc
    message_doc same
pair_history = refl

abbrev no_match : Bytes → Bytes → Bool
no_match query s = false

-- A page of one message of a history of two, from the repository.
abbrev older_doc : MessageDoc
unfolding hello_doc message_doc
older_doc = record pair_doc {
  id = lit "m0";
  message_id = lit "m0";
  created_at = pos 4;
  sent_at = pos 4;
}

abbrev two_repo : Repository lists
two_repo = record repo { messages = pair_doc ∷ older_doc ∷ [] }

abbrev two_history : List ServerMessage
two_history = map doc_to_server_message (pair_doc ∷ older_doc ∷ [])

limit_kept : (n : ℕ) → 0 < n → limit_or_default (pos n) ≡ n
unfolding limit_or_default
limit_kept n h = ground arith

two_kept :
    keep (is_in_rooms (room_id_aliases (normalize_room_id pair_room))) (pair_doc ∷ older_doc ∷ [])
    ≡ pair_doc ∷ older_doc ∷ []
unfolding keep is_in_rooms contains room_id_aliases trim_space canonical_dm join add_aliases
    add_alias sort_strings dm_room_id pair_doc normalize_room_id
two_kept = refl

two_repo-Answers :
    Answers
      (message_store_of lists no_match (pos 9) two_repo)
      (normalize_room_id pair_room)
      (pos 0)
      two_history
unfolding get_messages_before get_messages query_messages messages_of
two_repo-Answers n h =
    rw (limit_kept n h, limit_kept n h, two_kept)
      (ap ok (map-take doc_to_server_message n (pair_doc ∷ older_doc ∷ [])))

pair_is_named : is_empty (normalize_room_id pair_room) ≡ false
unfolding normalize_room_id dm_room_id
pair_is_named = refl

abbrev pair_server : Server
pair_server = record {
  msg_repo = some (message_store_of lists no_match (pos 9) two_repo);
  has_pg_rooms = false;
  now = pos 9;
  new_id = lit "m2";
}

abbrev page_req : GetMessagesRequest
page_req = record { room_id = pair_room; user_id = carol; limit = pos 1; before_unix_ms = pos 0 }

get_messages_page_example :
    (History.get_messages pair_server page_req).0
    ≡ ok (record {
      messages =
          map (in_room (normalize_room_id pair_room)) (take (page_limit (pos 1)) two_history);
      has_more = ltb (page_limit (pos 1)) (length two_history);
    })
get_messages_page_example =
    get_messages_page pair_server (message_store_of lists no_match (pos 9) two_repo) page_req
      two_history pair_is_named refl two_repo-Answers

abbrev detail_of_made : ConversationDetail
detail_of_made = doc_to_conversation_detail (
    group_doc (lit "CONV_" ++ itoa (pos 77)) (lit "us") [] [] carol (pos 9)
      (final_members carol (lit "dave" ∷ [])))

abbrev pair_group : ConversationDoc
pair_group = record {
  id = lit "CONV_1";
  type = group_type;
  participants = carol ∷ lit "dave" ∷ [];
  group_name = lit "us";
  group_photo = [];
  description = [];
  member_count = pos 2;
  last_message = [];
  last_message_id = [];
  last_message_at = zero_time;
  created_by = carol;
  created_at = pos 9;
}

pair_group-Counted : Counted pair_group
unfolding contains same
pair_group-Counted = ((refl, (refl, tt)), refl)

abbrev server : Server
server = record {
  msg_repo = some (message_store_of lists no_match (pos 9) repo);
  has_pg_rooms = false;
  now = pos 9;
  new_id = lit "m2";
}

abbrev delete_hello : ClientMessage
delete_hello = record zero_client_message {
  room_id = lit "group:x";
  user_id = carol;
  message_id = lit "m1";
  event_type = delete;
}

delete_hello_is_sent : deletes (broadcasts (process_incoming server delete_hello).calls) ≡ true
unfolding process_incoming on_event on_delete after_delete soft_delete_message_by_owner matched
    update_first deletable has_id is_owned_by hello_doc message_doc same
delete_hello_is_sent = refl

deletion_is_stored_example :
    Deleted
      (lit "m1")
      carol
      (hello_doc ∷ [])
      (soft_delete_message_by_owner lists (lit "m1") carol repo).1.messages
    × ((soft_delete_message_by_owner lists (lit "m1") carol repo).1 ≡ record repo {
      messages = (soft_delete_message_by_owner lists (lit "m1") carol repo).1.messages;
    })
deletion_is_stored_example =
    deletion_is_stored lists no_match (pos 9) lists-IsEngine server repo delete_hello refl
      delete_hello_is_sent
