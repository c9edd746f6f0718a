-- ===== src/Server/Messages/Replies.antt =====
-- The unary RPCs against the stream: both ways to send, delete or edit a message tell the room the same.
use chat_service.Server.Incoming.Broadcasts.{saves, broadcasts}
use chat_service.Text.Trim.{trim_space}
use chat_service.Server.Incoming.{
  sender_receipts, persist_message, on_edit, on_event, edit_result, after_edit, on_delete,
  after_delete, process_incoming,
}
use chat_service.RoomId.{normalize_room_id}
use chat_service.Proto.{ServerMessage, edit, delete, zero_client_message, ClientMessage}
use chat_service.Prelude.{
  refl, arith, [], ◌∷◌, true, none, false, inr, ◌≡◌, some, inl, err, ℤ, ◌||◌, Bool, ok, Bool-cases,
  Option, Result,
}
use chat_service.Server.Messages.{
  sent_message, edit_message, SendMessageRequest, EditMessageRequest, DeleteMessageRequest, edit_in,
  edition_reply, delete_message, delete_in, deletion_reply, send_message,
}
use chat_service.Server.Calls.{hub_broadcast, nothing, MessageStore, Outcome, Server, Reply}
use chat_service.Text.{is_empty, Bytes}

-- A reply with an error comes with no call of the hub and none of a goroutine.
abbrev pub Silent : {A : Type 0} → Reply A × Outcome → Type 0
Silent (ok a, o) = Unit
Silent (err e, o) = o ≡ nothing

send-Silent : (s : Server) (req : SendMessageRequest) → Silent (send_message s req)
unfolding send_message
send-Silent s req =
    elim (Bool-cases (is_empty (normalize_room_id req.conversation_id) || is_empty req.sender_id)) [
      | inl e ↦ rw e refl
      | inr e ↦ rw e tt
    ]

deletion_reply-Silent :
    (req : DeleteMessageRequest) (r : Result Bytes Bool) → Silent (deletion_reply req r)
unfolding deletion_reply
deletion_reply-Silent req (err e) = refl
deletion_reply-Silent req (ok false) = tt
deletion_reply-Silent req (ok true) = tt

delete_in-Silent : (o : Option MessageStore) (req : DeleteMessageRequest) → Silent (delete_in o req)
unfolding delete_in
delete_in-Silent none req = refl
delete_in-Silent (some st) req = deletion_reply-Silent req _

delete-Silent : (s : Server) (req : DeleteMessageRequest) → Silent (delete_message s req)
unfolding delete_message
delete-Silent s req = elim (Bool-cases (is_empty req.message_id || is_empty req.user_id)) [
  | inl e ↦ rw e refl
  | inr e ↦ rw e (delete_in-Silent s.msg_repo req)
]

edition_reply-Silent :
    (req : EditMessageRequest) (r : Result Bytes ℤ) → Silent (edition_reply req r)
unfolding edition_reply
edition_reply-Silent req (err e) = refl
edition_reply-Silent req (ok at) = tt

edit_in-Silent : (o : Option MessageStore) (req : EditMessageRequest) → Silent (edit_in o req)
unfolding edit_in
edit_in-Silent none req = refl
edit_in-Silent (some st) req = edition_reply-Silent req _

edit-Silent : (s : Server) (req : EditMessageRequest) → Silent (edit_message s req)
unfolding edit_message
edit-Silent s req =
    elim (Bool-cases
      (is_empty req.message_id || is_empty req.user_id || is_empty req.new_content)) [
        | inl e ↦ rw e refl
        | inr e ↦ rw e (edit_in-Silent s.msg_repo req)
      ]

-- SendMessage, DeleteMessage and EditMessage broadcast nothing and leave nothing to a goroutine when
-- they return an error, be it that a field is missing, that there is no store or that it has failed.
pub errors-Silent :
    (s : Server) (send : SendMessageRequest) (del : DeleteMessageRequest) (ed : EditMessageRequest)
    → Silent (send_message s send) × Silent (delete_message s del) × Silent (edit_message s ed)
errors-Silent s send del ed = (send-Silent s send, delete-Silent s del, edit-Silent s ed)

-- The frame on the stream that asks for the same.
abbrev pub delete_frame : DeleteMessageRequest → ClientMessage
delete_frame req = record zero_client_message {
  room_id = req.conversation_id;
  user_id = req.user_id;
  message_id = req.message_id;
  event_type = delete;
}

abbrev pub edit_frame : EditMessageRequest → ClientMessage
edit_frame req = record zero_client_message {
  room_id = req.conversation_id;
  user_id = req.user_id;
  message_id = req.message_id;
  text = req.new_content;
  event_type = edit;
}

module _ (req : DeleteMessageRequest)
    (room : is_empty (normalize_room_id req.conversation_id) ≡ false) where
  deletion_agrees :
      (r : Result Bytes Bool) → (deletion_reply req r).1 ≡ after_delete (delete_frame req) r
  unfolding deletion_reply after_delete
  deletion_agrees (err e) = refl
  deletion_agrees (ok false) = refl
  deletion_agrees (ok true) = rw room refl

  delete_in_agrees :
      (o : Option MessageStore)
      → is_empty req.message_id ≡ false
      → (delete_in o req).1 ≡ on_delete o (delete_frame req)
  unfolding delete_in on_delete
  delete_in_agrees none id = refl
  delete_in_agrees (some st) id = rw id (deletion_agrees _)

  -- For a request with a message, a user and a conversation, DeleteMessage tells the room and the
  -- stores exactly what the frame with the same fields does on the stream.
  pub delete_agrees :
      (s : Server)
      → is_empty req.message_id ≡ false
      → is_empty req.user_id ≡ false
      → (delete_message s req).1 ≡ process_incoming s (delete_frame req)
  unfolding delete_message process_incoming
  delete_agrees s id user = rw (id, user) (delete_in_agrees s.msg_repo id)

module _ (req : EditMessageRequest)
    (room : is_empty (normalize_room_id req.conversation_id) ≡ false) where
  edition_agrees :
      trim_space req.new_content ≡ req.new_content
      → (r : Result Bytes ℤ) → (edition_reply req r).1 ≡ after_edit (edit_frame req) r
  unfolding edition_reply after_edit
  edition_agrees clean (err e) = refl
  edition_agrees clean (ok at) = rw (room, clean) refl

  edit_in_agrees :
      (s : Server) (st : MessageStore)
      → s.msg_repo ≡ some st
      → trim_space req.new_content ≡ req.new_content
      → (edit_in s.msg_repo req).1
        ≡ after_edit (edit_frame req) (edit_result s s.msg_repo (edit_frame req))
  unfolding edit_in edit_result
  edit_in_agrees s st has clean = rw (has, clean) (edition_agrees clean _)

  -- For a request with a message, a user, a conversation and a content that is not empty and has no
  -- space around it, and where there is a store, EditMessage tells the room and the stores exactly
  -- what the frame with the same fields does on the stream.
  pub edit_agrees :
      (s : Server) (st : MessageStore)
      → s.msg_repo ≡ some st
      → is_empty req.message_id ≡ false
      → is_empty req.user_id ≡ false
      → is_empty req.new_content ≡ false
      → trim_space req.new_content ≡ req.new_content
      → (edit_message s req).1 ≡ process_incoming s (edit_frame req)
  unfolding edit_message process_incoming on_event on_edit
  edit_agrees s st has id user text clean =
      rw (clean, id, user, text) (edit_in_agrees s st has clean)

-- What is broadcast for a request, and what its goroutine stores, is the message of the reply, which is
-- one for the room with the canonical id of the conversation and from the sender of the request.
abbrev pub Consistent :
    SendMessageRequest → Option MessageStore → Reply ServerMessage × Outcome → Type 0
Consistent req repo (err e, o) = o ≡ nothing
Consistent req repo (ok sm, o) =
    (o.calls ≡ hub_broadcast sm true ∷ [])
    × (broadcasts o.background ≡ [])
    × (saves o.background ≡ (elim repo [ some st ↦ sm ∷ [] | none ↦ [] ]))
    × (sm.room_id ≡ normalize_room_id req.conversation_id)
    × (sm.user_id ≡ req.sender_id)
    × (sm.text ≡ req.content)
    × (is_empty sm.room_id ≡ false)
    × (is_empty sm.user_id ≡ false)

persist-saves :
    (s : Server) (m : ServerMessage)
    → (saves (persist_message s m) ≡ (elim s.msg_repo [ some st ↦ m ∷ [] | none ↦ [] ]))
      × (broadcasts (persist_message s m) ≡ [])
unfolding persist_message sender_receipts
persist-saves s m = ground arith

-- SendMessage either fails without any call, or it broadcasts and publishes the very message of its
-- reply, once, with the text and the sender of the request and under the canonical id of its
-- conversation, where neither id is empty; and its goroutine saves that message once where there is a
-- message store, and broadcasts nothing.
pub send_message-Consistent :
    (s : Server) (req : SendMessageRequest) → Consistent req s.msg_repo (send_message s req)
unfolding send_message sent_message
send_message-Consistent s req =
    elim (Bool-cases (is_empty (normalize_room_id req.conversation_id) || is_empty req.sender_id)) [
      | inl e ↦ rw e refl
      | inr e ↦ rw e (
          let stored = persist-saves s (sent_message s req) in
          (refl, stored.1, stored.0, refl, refl, refl, ground arith, ground arith))
    ]
