-- ===== src/Store/Documents/Reread.antt =====
-- What a message is after it has been saved and read again.
use chat_service.Server.Calls.{zero_time}
use chat_service.Prelude.{refl, pos, [], eqb_ℤ, false, true, if◌then◌else◌, arith, ◌≡◌, Bool, ℤ}
use chat_service.Store.Documents.{
  type_name, upper_pair, upper_byte, to_upper, message_doc, type_value, doc_to_server_message,
  or_else, type_of_doc,
}
use chat_service.Proto.{
  file, audio, sending, video, image, message, text, other_message_type, ServerMessage, MessageType,
}
use chat_service.Text.{same, is_empty, Bytes}

abbrev is_named : MessageType → Bool
is_named t = elim t [ other_message_type n ↦ false | _ ↦ true ]

-- The stored name has the prefix already, and with another one it names no type.
type_of_doc-type_name : (t : MessageType) → is_named t ≡ true → type_of_doc (type_name t) ≡ text
unfolding type_of_doc type_value to_upper upper_byte upper_pair type_name same
type_of_doc-type_name text h = refl
type_of_doc-type_name image h = refl
type_of_doc-type_name video h = refl
type_of_doc-type_name audio h = refl
type_of_doc-type_name file h = refl
type_of_doc-type_name (other_message_type n) h = absurd cc

if_same : {A : Type 0} (b : Bool) (x : A) → (if b then x else x) ≡ x
if_same true x = refl
if_same false x = refl

or_else-same : (s : Bytes) → or_else s s ≡ s
or_else-same s = ground arith

-- What is left of a message: neither its status nor a link to its file nor a reaction are stored.
abbrev pub reread : Bytes → ℤ → ServerMessage → ServerMessage
reread new_id now m = record m {
  message_id = if is_empty m.message_id then new_id else m.message_id;
  sent_at_unix_ms = if eqb_ℤ m.sent_at_unix_ms zero_time then now else m.sent_at_unix_ms;
  type = text;
  event_type = message;
  media_url = [];
  reaction_emoji = [];
  edited_at_unix_ms = pos 0;
  status = sending;
  is_online = false;
  last_seen_unix_ms = pos 0;
}

-- A message with one of the five types that is saved and read again has the room, the sender, the
-- text, the times, the media and the answered message that it had, and a fresh id where it had none;
-- but its type is text, whatever it was.
pub reread_as_text :
    (new_id : Bytes) (now : ℤ) (m : ServerMessage)
    → is_named m.type ≡ true
    → doc_to_server_message (message_doc new_id now m) ≡ reread new_id now m
unfolding doc_to_server_message message_doc
reread_as_text new_id now m h =
    rw
      (
        or_else-same m.room_id,
        or_else-same m.user_id,
        or_else-same m.text,
        if_same
            (eqb_ℤ (if eqb_ℤ m.sent_at_unix_ms zero_time then now else m.sent_at_unix_ms) zero_time)
            (if eqb_ℤ m.sent_at_unix_ms zero_time then now else m.sent_at_unix_ms),
        type_of_doc-type_name m.type h,
      )
      refl
