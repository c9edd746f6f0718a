-- ===== src/Kafka/Run.antt =====
-- Every state of the broker while rooms are subscribed to and cancelled, a subscription once, and
-- messages are handed out to the channels that are subscribed at that time.
use chat_service.Hub.Clients.{All-has_client}
use chat_service.Hub.{has_client}
use chat_service.Kafka.Live.{
  still_subscribed, cancelled-IsLive, channels-IsLive, hand_out_open, subscribe-IsLive,
  no_subscriptions-IsLive, no_subscriptions, IsLive,
}
use chat_service.Chan.{send_on_closed, Panic, try_send, Chan}
use chat_service.Prelude.{
  ◌==◌, ◌∙◌, refl, err, not, sym, [], ◌&&◌, subst, arith, ◌∷◌, false, ok, true, All, ◌≡◌, Result, ℕ,
}
use chat_service.Kafka.{subscribers, hand_out, dispatch, KafkaBroker, cancel, subscribe}
use chat_service.Kafka.Subscriptions.{cancelled, cancel_open}
use chat_service.Text.{same, Bytes}

module _ {Data : Type 0} where
  -- The broker as the service uses it.
  pub data Run : KafkaBroker Data → Type 0 where
    start : (store : ℕ → Chan Data) → Run (no_subscriptions store)
    join : {b : KafkaBroker Data} (room : Bytes) → Run b → Run (subscribe room b).1
    quit :
        {b b' : KafkaBroker Data} (room : Bytes) (c : ℕ)
        → Run b
        → has_client (subscribers room b) c ≡ true
        → cancel room c b ≡ ok b'
        → Run b'
    hand :
        {b b' : KafkaBroker Data} (room : Bytes) (payload : Data)
        → Run b
        → dispatch payload (subscribers room b) b ≡ ok b'
        → Run b'

  subscribed-All :
      (room : Bytes) (b : KafkaBroker Data)
      → IsLive b
      → All (λ c. (b.channels c).closed ≡ false) (subscribers room b)
  subscribed-All room b v =
      All-has_client (λ c. (b.channels c).closed ≡ false) (subscribers room b) (v.opened room)

  dispatch_open :
      (room : Bytes) (payload : Data) (b : KafkaBroker Data)
      → IsLive b
      → (b' : KafkaBroker Data) × (dispatch payload (subscribers room b) b ≡ ok b') × IsLive b'
  unfolding dispatch
  dispatch_open room payload b v =
      let (store, e, closed) =
        hand_out_open payload (subscribers room b) b.channels (subscribed-All room b v) in
      (record b { channels = store }, rw (e, dispatch) refl, channels-IsLive b store closed v)

  ok_same : {x y : KafkaBroker Data} → Path (Result Panic (KafkaBroker Data)) (ok x) (ok y) → x ≡ y
  ok_same h = cc

  -- Whatever the order of subscriptions, cancellations and rounds of the loop that are not mixed with
  -- a cancellation: every subscribed channel is open and stands in one room only, once there.
  pub Run-IsLive : {b : KafkaBroker Data} → Run b → IsLive b
  Run-IsLive (start store) = no_subscriptions-IsLive store
  Run-IsLive (join {b = b} room r) = subscribe-IsLive room b (Run-IsLive r)
  Run-IsLive (quit {b = b} room c r sub e) =
      let v = Run-IsLive r in
      subst IsLive (ok_same (sym (cancel_open room c b (v.opened room c sub)) ∙ e))
        (cancelled-IsLive room c b sub v)
  Run-IsLive (hand {b = b} room payload r e) =
      let (b2, e2, v) = dispatch_open room payload b (Run-IsLive r) in
      subst IsLive (ok_same (sym e2 ∙ e)) v

  -- In every state that the broker so reaches no operation panics: a subscribed channel can be cancelled, which takes it and no
  -- other out of its room and no other room, and a message for any room can be handed out.
  pub Run-safe :
      {b : KafkaBroker Data} (room : Bytes) (payload : Data) (c : ℕ)
      → Run b
      → has_client (subscribers room b) c ≡ true
      → ((b' : KafkaBroker Data) × (cancel room c b ≡ ok b')
          × ((j : Bytes) (d : ℕ)
              → has_client (subscribers j b') d
                ≡ (has_client (subscribers j b) d && not (same room j && (c == d)))))
        × ((b' : KafkaBroker Data) × (dispatch payload (subscribers room b) b ≡ ok b'))
  Run-safe {b} room payload c r sub =
      let v = Run-IsLive r in
      let (b2, e2, v2) = dispatch_open room payload b v in
      (
        (
          cancelled room c b,
          cancel_open room c b (v.opened room c sub),
          λ j d. still_subscribed room j c d b v,
        ),
        (b2, e2),
      )

  send_to_closed :
      (payload : Data) (c : ℕ) (store : ℕ → Chan Data)
      → (store c).closed ≡ true
      → hand_out payload (c ∷ []) store ≡ err send_on_closed
  unfolding hand_out try_send
  send_to_closed payload c store h = rw (h, hand_out) refl

  closed-cancelled :
      (room : Bytes) (c : ℕ) (b : KafkaBroker Data)
      → ((cancelled room c b).channels c).closed ≡ true
  closed-cancelled room c b = ground arith

  -- Where the delivery loop has read the channels of a room with one subscription, and that
  -- subscription is cancelled before the loop sends, the send panics.
  pub cancelled_meanwhile :
      {b b' : KafkaBroker Data} (room : Bytes) (payload : Data) (c : ℕ)
      → Run b
      → subscribers room b ≡ c ∷ []
      → cancel room c b ≡ ok b'
      → dispatch payload (subscribers room b) b' ≡ err send_on_closed
  unfolding dispatch has_client
  cancelled_meanwhile {b} room payload c r one e =
      let sub : has_client (subscribers room b) c ≡ true = rw one (ground arith) in
      let open_c = (Run-IsLive r).opened room c sub in
      subst (λ x. dispatch payload (subscribers room b) x ≡ err send_on_closed)
        (ok_same (sym (cancel_open room c b open_c) ∙ e))
        (subst (λ cs. dispatch payload cs (cancelled room c b) ≡ err send_on_closed) (sym one)
          (rw
            (
              send_to_closed payload c (cancelled room c b).channels (closed-cancelled room c b),
              dispatch,
            )
            refl))
