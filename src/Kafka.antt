-- ===== src/Kafka.antt =====
-- app/broker/kafka_broker.go: the subscriptions of one process and the loop that hands the messages of
-- Kafka to them. A Go channel is a number, the channels themselves stand in a store. Reading from
-- Kafka and committing are the library's: `consume` gets the messages that FetchMessage returns, and
-- what other goroutines do to the subscriptions in between.
pub mod Subscriptions
pub mod Live
pub mod Run
pub mod Sends
pub mod Delivered
pub mod Tests
use chat_service.Hub.{update}
use chat_service.Text.Assoc.{remove, insert, lookup}
use chat_service.Chan.{try_send, make_chan, close_chan, Panic, Chan}
use chat_service.Prelude.{
  suc, none, err, ok, ◌==◌, if◌then◌else◌, ◌++◌, some, ◌∷◌, Result, [], ℕ, Option, List,
}
use chat_service.Text.{lit, Bytes}

pub record KafkaBroker (Data : Type 0) : Type 0 where
  -- b.subs
  pub subs : List (Bytes × List ℕ)
  pub channels : ℕ → Chan Data
  -- the number of the next channel that is made
  pub next : ℕ

-- kafka.Message, as far as it is used
pub record Message (Data : Type 0) : Type 0 where
  pub key : Bytes
  pub value : Data

-- A call of Subscribe, or of the function that it has returned.
pub data Change : Type 0 where
  subscribes : Bytes → Change
  cancels : Bytes → ℕ → Change

-- A round of `consume`: what the others do before the channels are read, the message that was fetched,
-- and what they do before each of the sends.
pub record Round (Data : Type 0) : Type 0 where
  pub before : List Change
  pub message : Message Data
  pub between : ℕ → List Change

-- One step after another; a panic ends the process.
abbrev pub and_next {ℓ κ} :
    {A : Type ℓ} {B : Type κ} → Result Panic A → (A → Result Panic B) → Result Panic B
and_next (err p) f = err p
and_next (ok a) f = f a

-- b.subs[roomID]; a missing key gives nil
abbrev pub channels_of : Option (List ℕ) → List ℕ
channels_of none = []
channels_of (some cs) = cs

-- append(list[:i], list[i+1:]...) for the first i where the channel stands
unfoldable pub drop_channel : ℕ → List ℕ → List ℕ
drop_channel c [] = []
drop_channel c (d ∷ ds) = let rest = drop_channel c ds in if d == c then ds else d ∷ rest

-- The entry of a room: deleted where no channel is left.
unfoldable pub put_channels : Bytes → List ℕ → List (Bytes × List ℕ) → List (Bytes × List ℕ)
put_channels room [] subs = remove room subs
put_channels room (c ∷ cs) subs = insert room (c ∷ cs) subs

module _ {Data : Type 0} where
  unfoldable pub subscribers : Bytes → KafkaBroker Data → List ℕ
  subscribers room b = channels_of (lookup room b.subs)

  -- Subscribe: the channel, and the broker after it
  unfoldable pub subscribe : Bytes → KafkaBroker Data → ℕ × KafkaBroker Data
  unfolding subscribers
  subscribe room b = (
    b.next,
    record {
      subs = insert room (subscribers room b ++ b.next ∷ []) b.subs;
      channels = update b.channels b.next (make_chan 256);
      next = suc b.next;
    },
  )

  -- The function `cancel` of a subscription.
  unfoldable pub cancel : Bytes → ℕ → KafkaBroker Data → Result Panic (KafkaBroker Data)
  unfolding subscribers drop_channel put_channels
  cancel room c b =
      let subs = put_channels room (drop_channel c (subscribers room b)) b.subs in
      elim (close_chan (b.channels c)) [
        | err p ↦ err p
        | ok ch ↦ ok (record b { subs = subs; channels = update b.channels c ch })
      ]

  -- The loop over the channels that were read from `b.subs`.
  unfoldable pub hand_out : Data → List ℕ → (ℕ → Chan Data) → Result Panic (ℕ → Chan Data)
  hand_out payload [] store = ok store
  hand_out payload (c ∷ cs) store = elim (try_send payload (store c)) [
    | err p ↦ err p
    | ok ch ↦ hand_out payload cs (update store c ch)
  ]

  -- The part of a round of `consume` after the channels, `snapshot`, were read under the lock, where
  -- nobody subscribes or cancels between its sends.
  unfoldable pub dispatch : Data → List ℕ → KafkaBroker Data → Result Panic (KafkaBroker Data)
  unfolding hand_out
  dispatch payload snapshot b = elim (hand_out payload snapshot b.channels) [
    | err p ↦ err p
    | ok store ↦ ok (record b { channels = store })
  ]

  -- What Publish writes to Kafka.
  unfoldable pub publish : Bytes → Data → Message Data
  publish room payload = record { key = room; value = payload }

  -- What other goroutines do to the subscriptions, one call after the other.
  unfoldable pub changed : List Change → KafkaBroker Data → Result Panic (KafkaBroker Data)
  unfolding subscribe cancel
  changed [] b = ok b
  changed (subscribes room ∷ changes) b = changed changes (subscribe room b).1
  changed (cancels room c ∷ changes) b = elim (cancel room c b) [
    | err p ↦ err p
    | ok b' ↦ changed changes b'
  ]

  -- select { case ch <- data: default: }
  unfoldable pub send_one : Data → ℕ → KafkaBroker Data → Result Panic (KafkaBroker Data)
  send_one payload c b = elim (try_send payload (b.channels c)) [
    | err p ↦ err p
    | ok ch ↦ ok (record b { channels = update b.channels c ch })
  ]

  -- The loop over the channels that were read, with the changes before each of its sends.
  unfoldable pub send_all :
      (ℕ → List Change) → Data → List ℕ → KafkaBroker Data → Result Panic (KafkaBroker Data)
  unfolding changed send_one
  send_all between payload [] b = ok b
  send_all between payload (c ∷ cs) b =
      and_next (changed (between 0) b)
        λ b1. and_next (send_one payload c b1) λ b2. send_all (λ i. between (suc i)) payload cs b2

  -- A round of `consume`: the channels are read under the lock and sent to without it.
  unfoldable pub consume_one : Round Data → KafkaBroker Data → Result Panic (KafkaBroker Data)
  unfolding send_all subscribers
  consume_one r b =
      and_next (changed r.before b)
        λ b1. send_all r.between r.message.value (subscribers r.message.key b1) b1

  -- `consume`, for the messages that FetchMessage returns without an error.
  unfoldable pub consume : List (Round Data) → KafkaBroker Data → Result Panic (KafkaBroker Data)
  unfolding consume_one
  consume [] b = ok b
  consume (r ∷ rs) b = and_next (consume_one r b) (consume rs)
