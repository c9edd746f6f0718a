-- ===== src/Server/Tests.antt =====
-- A server with a store that holds three messages of one room, and the theorems about the handlers.
use chat_service.Server.Groups.Replies.{handle, promotes, Ended, handle-Ended}
use chat_service.Store.GroupService.{group_store_of}
use chat_service.Store.Lists.{lists}
use chat_service.Store.Repository.{Repository}
use chat_service.Text.Decimal.{digits, itoa}
use chat_service.Server.Uploads.Keys.{request_upload-Allowed, Allowed}
use chat_service.Server.Uploads.{request_upload, no_colons, upload_key, Storage, UploadRequest}
use chat_service.Server.Listing.Covered.{get_user_rooms_merged, RowListed, SummaryListed}
use chat_service.Server.Listing.Merge.{IsListing}
use chat_service.Server.Listing.{in_order, get_user_rooms, Listed, UserRoomSummary, RoomRow}
use chat_service.Server.Messages.Replies.{send_message-Consistent, delete_frame, Consistent}
use chat_service.Server.Incoming.Broadcasts.{
  deletes, deletes_authorised, broadcasts, DeletedByOwner,
}
use chat_service.Server.Incoming.{after_delete, on_delete, on_event, process_incoming}
use chat_service.RoomId.{normalize_room_id}
use chat_service.Server.Messages.{
  send_message, SendMessageRequest, EditMessageRequest, DeleteMessageRequest,
}
use chat_service.Server.Calls.{Server, MessageStore}
use chat_service.Prelude.{◌++◌, refl, take, false, true, [], ◌≡◌, pos, some, ok, ◌∷◌, All, List}
use chat_service.Proto.{text, zero_server_message, ServerMessage}
use chat_service.Text.{same, is_empty, lit, Bytes}

abbrev room_x : Bytes
room_x = lit "group:x"

abbrev said : Bytes → ServerMessage
said id = record zero_server_message {
  room_id = room_x;
  user_id = lit "alice";
  message_id = id;
  text = lit "hi";
}

abbrev history : List ServerMessage
history = said (lit "m3") ∷ said (lit "m2") ∷ said (lit "m1") ∷ []

abbrev store : MessageStore
store = record {
  edit_message = λ id user text. ok (pos 7);
  soft_delete_message_by_owner = λ id user. ok (same user (lit "alice"));
  get_messages_before = λ room before n. ok (take n history);
  search_messages = λ room query n. ok [];
  get_unread_count = λ user room. ok (pos 0);
}

abbrev server : Server
server = record { msg_repo = some store; has_pg_rooms = true; now = pos 1000; new_id = lit "m4" }

abbrev delete_req : DeleteMessageRequest
delete_req = record { message_id = lit "m1"; user_id = lit "alice"; conversation_id = room_x }

abbrev edit_req : EditMessageRequest
edit_req = record {
  message_id = lit "m1";
  user_id = lit "alice";
  new_content = lit "hello";
  conversation_id = room_x;
}

abbrev send_req : SendMessageRequest
send_req = record {
  conversation_id = room_x;
  sender_id = lit "alice";
  content = lit "hi";
  message_type = text;
  media_key = [];
  media_name = [];
  media_size_bytes = pos 0;
  media_mime_type = [];
  reply_to_message_id = [];
}

room_is_named : is_empty (normalize_room_id room_x) ≡ false
unfolding normalize_room_id
room_is_named = refl

delete_is_sent :
    deletes (broadcasts (process_incoming server (delete_frame delete_req)).calls) ≡ true
unfolding process_incoming on_event on_delete after_delete same
delete_is_sent = refl

deletes_authorised_example : DeletedByOwner server (delete_frame delete_req)
deletes_authorised_example = deletes_authorised server (delete_frame delete_req) delete_is_sent

send_message-Consistent_example : Consistent send_req (some store) (send_message server send_req)
send_message-Consistent_example = send_message-Consistent server send_req

-- One room under both of its spellings, with an older row from PostgreSQL.
abbrev row : RoomRow
row = record {
  room_id = lit "dm:a:b";
  room_type = pos 0;
  name = lit "B";
  last_message = lit "old";
  last_message_at = pos 1;
  has_unread = true;
  member_ids = lit "a" ∷ lit "b" ∷ [];
}

abbrev summary : UserRoomSummary
summary = record {
  room_id = lit "dm:b:a";
  last_message = lit "new";
  last_message_at = pos 2;
  member_ids = [];
}

get_user_rooms_merged_example :
    (l : Listed) × (get_user_rooms (lit "a") (some (ok (row ∷ []))) (some (ok (summary ∷ [])))
      ≡ ok (in_order l))
    × IsListing l
    × All (RowListed l) (row ∷ [])
    × All (SummaryListed l) (summary ∷ [])
get_user_rooms_merged_example =
    get_user_rooms_merged (lit "a") (some (ok (row ∷ []))) (some (ok (summary ∷ []))) refl

abbrev upload_req : UploadRequest
upload_req = record {
  room_id = lit "dm:a:b";
  user_id = lit "a";
  file_name = lit "cat.png";
  mime_type = lit "image/png";
  file_size_bytes = pos 4096;
}

abbrev bucket : Storage
bucket = record {
  put_presigned_url = λ key mime size. ok (lit "https://bucket/" ++ key, pos 99);
  get_presigned_url = λ key. ok (lit "https://bucket/" ++ key, pos 99);
}

upload_key_of_cat : upload_key (pos 1000) upload_req ≡ lit "rooms/dm_a_b/a/1000/cat.png"
unfolding upload_key no_colons itoa digits
upload_key_of_cat = refl

request_upload-Allowed_example :
    Allowed upload_req (request_upload (some bucket) true (pos 1000) upload_req)
request_upload-Allowed_example = request_upload-Allowed (some bucket) true (pos 1000) upload_req

abbrev no_groups : Repository lists
no_groups = record {
  conversations = [];
  group_members = [];
  messages = [];
  message_read = [];
  receipts = [];
  media = [];
}

handle-Ended_example :
    Ended
      (some (group_store_of lists (pos 5) (pos 7) (lit "n")))
      (promotes (lit "g") (lit "bob") (lit "alice"))
      no_groups
      (handle
        (some (group_store_of lists (pos 5) (pos 7) (lit "n")))
        (promotes (lit "g") (lit "bob") (lit "alice"))
        no_groups)
handle-Ended_example =
    handle-Ended (some (group_store_of lists (pos 5) (pos 7) (lit "n")))
      (promotes (lit "g") (lit "bob") (lit "alice")) no_groups
