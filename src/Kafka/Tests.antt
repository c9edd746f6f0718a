-- ===== src/Kafka/Tests.antt =====
-- A broker with one subscription, and the theorems about it.
use chat_service.Text.Assoc.{insert, lookup}
use chat_service.Chan.{try_send, send_on_closed, make_chan, close_chan}
use chat_service.Prelude.{err, ◌++◌, ◌+◌, ◌≤◌, length, List, arith, refl, [], true, ◌∷◌, ok, ◌≡◌, ℕ}
use chat_service.Hub.{has_client}
use chat_service.Kafka.{subscribers, subscribe, KafkaBroker}
use chat_service.Kafka.Run.{Run, start, join}
use chat_service.Kafka.{cancel, consume, publish, Message, Round, subscribes, cancels}
use chat_service.Kafka.Delivered.{for_room, consume_in_order}
use chat_service.Kafka.Subscriptions.{cancelled}
use chat_service.Kafka.Live.{no_subscriptions}
use chat_service.Text.{same, lit, Bytes}

abbrev room_x : Bytes
room_x = lit "group:x"

abbrev fresh : KafkaBroker ℕ
fresh = no_subscriptions (λ c. make_chan 256)

abbrev joined : KafkaBroker ℕ
joined = (subscribe room_x fresh).1

joined-Run : Run joined
joined-Run = join room_x (start (λ c. make_chan 256))

joined_one : subscribers room_x joined ≡ 0 ∷ []
unfolding subscribe subscribers lookup insert same
joined_one = refl

joined_has : has_client (subscribers room_x joined) 0 ≡ true
unfolding subscribe subscribers lookup insert same has_client
joined_has = refl

abbrev left : KafkaBroker ℕ
left = cancelled room_x 0 joined

joined_quits : cancel room_x 0 joined ≡ ok left
unfolding cancel subscribe close_chan
joined_quits = refl

abbrev quiet_round : Message ℕ → Round ℕ
quiet_round m = record { before = []; message = m; between = λ i. [] }

-- Two messages for the room, and one for another between them; somebody else joins the room after the
-- channels for the first were read.
abbrev rounds : List (Round ℕ)
rounds =
    record (quiet_round (publish room_x 7)) { between = λ i. subscribes room_x ∷ [] }
    ∷ quiet_round (publish (lit "group:y") 8)
    ∷ quiet_round (publish room_x 9)
    ∷ []

two_of_them : for_room room_x rounds ≡ 7 ∷ 9 ∷ []
unfolding for_room same publish
two_of_them = refl

space :
    length (joined.channels 0).buffer + length (for_room room_x rounds)
    ≤ (joined.channels 0).capacity
unfolding subscribe for_room same publish
space = omega arith

consume_in_order_example :
    (b' : KafkaBroker ℕ) × (consume rounds joined ≡ ok b')
    × ((b'.channels 0).buffer ≡ (joined.channels 0).buffer ++ for_room room_x rounds)
consume_in_order_example =
    consume_in_order rounds room_x 0 joined-Run
      ((tt, λ i. tt), ((tt, λ i. tt), ((tt, λ i. tt), tt))) joined_has space

-- A cancellation after the channels were read makes the send panic.
meanwhile :
    consume
      (record (quiet_round (publish room_x 7)) { between = λ i. cancels room_x 0 ∷ [] } ∷ [])
      joined
    ≡ err send_on_closed
unfolding consume lookup insert same publish close_chan try_send
meanwhile = refl
