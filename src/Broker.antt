-- ===== src/Broker.antt =====
-- app/broker/broker.go: what the hub asks of a broker, and the broker that does nothing. The
-- encoding of messages (`json.Marshal` and `json.Unmarshal`, to `Data`, Go's `[]byte`, into which the
-- service never looks) is a parameter with its round trip.
use chat_service.Proto.{ServerMessage}
use chat_service.Prelude.{◌∷◌, suc, some, List, ◌≡◌, ℕ, Option}
use chat_service.Text.{Bytes}

pub record Broker (Data : Type 0) : Type 1 where
  pub State : Type 0
  -- the `cancel` function that `Subscribe` returns
  pub Handle : Type 0
  pub publish : Bytes → Data → State → State
  pub subscribe : Bytes → State → Option Handle × State
  pub cancel : Handle → State → State

pub record Codec (Data : Type 0) : Type 0 where
  pub marshal : ServerMessage → Data
  pub unmarshal : Data → Option ServerMessage
  pub unmarshal-marshal : (m : ServerMessage) → unmarshal (marshal m) ≡ some m

-- Noop: each subscription has a channel of its own, on which nothing is ever sent, and which
-- `cancel` closes. The state counts the channels that were made and lists those that were closed.
pub record NoopState : Type 0 where
  pub made : ℕ
  pub cancelled : List ℕ

abbrev pub noop : {Data : Type 0} → Broker Data
noop = record {
  State = NoopState;
  Handle = ℕ;
  publish = λ room payload s. s;
  subscribe = λ room s. (some s.made, record s { made = suc s.made });
  cancel = λ h s. record s { cancelled = h ∷ s.cancelled };
}
