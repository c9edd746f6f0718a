-- ===== src/Server/Calls.antt =====
-- What the handlers call: the message store and the room repository as far as their answers matter,
-- and the calls whose answers are dropped or only logged.
use chat_service.Proto.{ServerMessage}
use chat_service.Prelude.{
  false, none, true, some, negsuc, ℕ, Bool, ℤ, ◌∷◌, [], List, Option, Result,
}
use chat_service.Text.{Bytes}

-- google.golang.org/grpc/codes, those that the service returns
pub data Code : Type 0 where
  invalid_argument not_found resource_exhausted unimplemented internal unauthenticated : Code

-- status.Error(code, message); the text of an error is left out
abbrev pub Reply : Type 0 → Type 0
Reply A = Result Code A

-- The answers of repository.MessageStore in the state in which the handler asks; an error is its text.
pub record MessageStore : Type 0 where
  pub edit_message : Bytes → Bytes → Bytes → Result Bytes ℤ
  pub soft_delete_message_by_owner : Bytes → Bytes → Result Bytes Bool
  pub get_messages_before : Bytes → ℤ → ℕ → Result Bytes (List ServerMessage)
  pub search_messages : Bytes → Bytes → ℤ → Result Bytes (List ServerMessage)
  pub get_unread_count : Bytes → Bytes → Result Bytes ℤ

-- A server: `s.msgRepo` and `s.pgRooms` may be nil. `now` is the time in Unix milliseconds.
pub record Server : Type 0 where
  pub msg_repo : Option MessageStore
  pub has_pg_rooms : Bool
  pub now : ℤ
  -- uuid.NewString()
  pub new_id : Bytes

-- The calls of the hub, and those of the message store and of the room repository whose answers are
-- dropped.
pub data Call : Type 0 where
  hub_broadcast : ServerMessage → Bool → Call
  store_save : ServerMessage → Call
  store_read_receipt : Bytes → Bytes → Bytes → ℤ → Call
  rooms_read_receipt : Bytes → Bytes → Bytes → ℤ → Call
  rooms_last_activity : Bytes → Bytes → Bytes → Bytes → ℤ → Call
  store_mark_read : Bytes → Bytes → Bytes → Call

-- What a handler does itself, and what it leaves to a goroutine that it starts.
pub record Outcome : Type 0 where
  pub calls : List Call
  pub background : List Call

abbrev pub nothing : Outcome
nothing = record { calls = []; background = [] }

abbrev pub only : Call → Outcome
only c = record { calls = c ∷ []; background = [] }

-- time.Time{}, the zero time: 0001-01-01 in Unix milliseconds
abbrev pub zero_time : ℤ
zero_time = negsuc 62135596799999

abbrev pub when_some {ℓ} : {A : Type ℓ} → Option A → List Call → List Call
when_some none cs = []
when_some (some a) cs = cs

abbrev pub when : Bool → List Call → List Call
when true cs = cs
when false cs = []
