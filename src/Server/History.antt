-- ===== src/Server/History.antt =====
-- `GetMessages` of app/server/grpc_server.go.
pub mod Pages
use chat_service.RoomId.{normalize_room_id}
use chat_service.Server.Calls.{
  rooms_read_receipt, store_read_receipt, invalid_argument, when_some, internal, when, Reply,
  MessageStore, Call, Server,
}
use chat_service.Proto.{ServerMessage}
use chat_service.Prelude.{
  ◌++◌, negsuc, none, take, ◌||◌, ◌+◌, length, not, ◌==◌, some, err, ltb, if◌then◌else◌, ◌∷◌, ok,
  Result, map, pos, ℕ, false, Bool, Option, [], List, ℤ,
}
use chat_service.Text.{is_empty, lit, Bytes}

pub record GetMessagesRequest : Type 0 where
  pub room_id : Bytes
  pub user_id : Bytes
  pub limit : ℤ
  pub before_unix_ms : ℤ

pub record GetMessagesResponse : Type 0 where
  pub messages : List ServerMessage
  pub has_more : Bool

abbrev pub empty_page : GetMessagesResponse
empty_page = record { messages = []; has_more = false }

-- limit := int(req.GetLimit()), with its default
unfoldable pub page_limit : ℤ → ℕ
page_limit (pos n) = if (n == 0) || ltb 200 n then 50 else n
page_limit (negsuc n) = 50

-- m.RoomId = roomID
abbrev pub in_room : Bytes → ServerMessage → ServerMessage
in_room room m = record m { room_id = room }

-- Marking the conversation as read: the goroutine for a request with a user and a page with messages.
page_receipts : Server → Bytes → Bytes → List ServerMessage → List Call
page_receipts s room user [] = []
page_receipts s room user (newest ∷ ms) = when (not (is_empty user)) (
    when_some s.msg_repo (store_read_receipt room user newest.message_id s.now ∷ [])
    ++ when s.has_pg_rooms (rooms_read_receipt room user newest.message_id s.now ∷ []))

-- The page from what the store has found, which is one message more than the page may have.
page_of : Server → Bytes → Bytes → ℕ → List ServerMessage → GetMessagesResponse × List Call
unfolding page_receipts
page_of s room user limit found =
    let msgs = map (in_room room) found in
    let has_more = ltb limit (length msgs) in
    let page = if has_more then take limit msgs else msgs in
    (record { messages = page; has_more = has_more }, page_receipts s room user page)

page_of_result :
    Server
    → Bytes
    → Bytes
    → ℕ
    → Result Bytes (List ServerMessage)
    → Reply GetMessagesResponse × List Call
unfolding page_of
page_of_result s room user limit (err e) = (err internal, [])
page_of_result s room user limit (ok found) =
    let (page, receipts) = page_of s room user limit found in (ok page, receipts)

history_from :
    Option MessageStore
    → Server
    → Bytes
    → GetMessagesRequest
    → Reply GetMessagesResponse × List Call
unfolding page_of_result page_limit
history_from none s room req = (ok empty_page, [])
history_from (some st) s room req =
    let limit = page_limit req.limit in
    page_of_result s room req.user_id limit
      (st.get_messages_before room req.before_unix_ms (limit + 1))

-- GetMessages: the response, and the calls of its goroutine.
pub get_messages : Server → GetMessagesRequest → Reply GetMessagesResponse × List Call
unfolding history_from
get_messages s req =
    let room = normalize_room_id req.room_id in
    if is_empty room then (err invalid_argument, []) else history_from s.msg_repo s room req
