-- ===== src/Store/Service.antt =====
-- The repository as the message store of the handlers: the interface `MessageStore` that
-- app/server/grpc_server.go calls, filled by `MessageRepository` in one of its states.
use chat_service.Store.Messages.Owners.{soft_delete_message_by_owner_lem, Deleted}
use chat_service.Server.Incoming.{process_incoming}
use chat_service.Server.Incoming.Broadcasts.{deletes_authorised, broadcasts, deletes}
use chat_service.Proto.{ClientMessage}
use chat_service.Server.Calls.{Server, MessageStore}
use chat_service.Store.Repository.{Repository}
use chat_service.Prelude.{Option, ap, ok, ◌∙◌, sym, true, some, ◌≡◌, pos, ℤ, Bool}
use chat_service.Store.Engine.{IsEngine, Engine}
use chat_service.Store.Messages.{
  edit_message, search_messages, get_messages_before, soft_delete_message_by_owner,
}
use chat_service.Store.Reading.{get_unread_count}
use chat_service.Text.{Bytes}

some_same : {x y : MessageStore} → Path (Option MessageStore) (some x) (some y) → x ≡ y
some_same h = cc

module _ (db : Engine) (matches : Bytes → Bytes → Bool) (now : ℤ) where
  -- The answers of the repository in a state, at a time.
  abbrev pub message_store_of : Repository db → MessageStore
  message_store_of s = record {
    edit_message = λ id user text. (edit_message db now id user text s).0;
    soft_delete_message_by_owner = λ id user. (soft_delete_message_by_owner db id user s).0;
    get_messages_before = λ room before n. get_messages_before db room before (pos n) s;
    search_messages = λ room query n. search_messages db matches room query n s;
    get_unread_count = λ user room. get_unread_count db user room s;
  }

  module _ (laws : IsEngine db) where
    -- When the handlers stand on the repository: a deletion is broadcast for a frame only if the
    -- repository has thereby marked one message as deleted, which has the id of the frame and is one of
    -- the user that the frame names, and has left every other message and the other collections as
    -- they were.
    pub deletion_is_stored :
        (server : Server) (s : Repository db) (m : ClientMessage)
        → server.msg_repo ≡ some (message_store_of s)
        → deletes (broadcasts (process_incoming server m).calls) ≡ true
        → let s' = (soft_delete_message_by_owner db m.message_id m.user_id s).1 in
          Deleted m.message_id m.user_id (db.docs s.messages) (db.docs s'.messages)
          × (s' ≡ record s { messages = s'.messages })
    deletion_is_stored server s m has h =
        let (st, repo, owned) = deletes_authorised server m h in
        let answer = soft_delete_message_by_owner db m.message_id m.user_id s in
        let same_store : some st ≡ some (message_store_of s) = sym repo ∙ has in
        let stores : st ≡ message_store_of s = some_same same_store in
        let told : answer.0 ≡ ok true =
          ap (λ x. x.soft_delete_message_by_owner m.message_id m.user_id) (sym stores) ∙ owned in
        soft_delete_message_by_owner_lem db laws m.message_id m.user_id true s answer.1
          (ap (λ r. (r, answer.1)) told)
