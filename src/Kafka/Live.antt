-- ===== src/Kafka/Live.antt =====
-- What is so of the subscriptions in every state of the broker, and each operation keeps it.
use chat_service.Text.Assoc.{lookup}
use chat_service.Chan.{try_send_open, closed-offer, offer, Chan}
use chat_service.Hub.Clients.{NoDuplicates}
use chat_service.Hub.{update, has_client}
use chat_service.Prelude.{
  All-map, ap, inr, ◌∷◌, arith, inl, ok, not, ◌⊎◌, refl, ◌==◌, Bool-cases, ◌<◌, ◌∙◌, All, ◌&&◌,
  ◌||◌, suc, if◌then◌else◌, false, [], true, List, ◌≡◌, ℕ,
}
use chat_service.Kafka.{hand_out, subscribe, subscribers, KafkaBroker}
use chat_service.Kafka.Subscriptions.{
  NoDuplicates-drop_channel, has_client-drop_channel, NoDuplicates-append, has_client-append,
  subscribers-cancelled, subscribers-subscribe, cancelled,
}
use chat_service.Text.{same_iff, same, Bytes}

module _ {Data : Type 0} where
  -- A subscribed channel is open, has been made, and stands in one room, once.
  pub record IsLive (b : KafkaBroker Data) : Type 0 where
    pub once : (room : Bytes) → NoDuplicates (subscribers room b)
    pub opened :
        (room : Bytes) (c : ℕ)
        → has_client (subscribers room b) c ≡ true
        → (b.channels c).closed ≡ false
    pub made : (room : Bytes) (c : ℕ) → has_client (subscribers room b) c ≡ true → c < b.next
    pub one_room :
        (room room' : Bytes) (c : ℕ)
        → has_client (subscribers room b) c ≡ true
        → has_client (subscribers room' b) c ≡ true
        → same room room' ≡ true

  abbrev pub no_subscriptions : (ℕ → Chan Data) → KafkaBroker Data
  no_subscriptions store = record { subs = []; channels = store; next = 0 }

  pub no_subscriptions-IsLive : (store : ℕ → Chan Data) → IsLive (no_subscriptions store)
  unfolding subscribers has_client lookup
  no_subscriptions-IsLive store = record {
    once = λ room. tt;
    opened = λ room c h. cc;
    made = λ room c h. absurd cc;
    one_room = λ room room' c h h'. absurd cc;
  }

  unmade :
      (b : KafkaBroker Data)
      → IsLive b
      → (room : Bytes) → has_client (subscribers room b) b.next ≡ false
  unmade b v room = elim (Bool-cases (has_client (subscribers room b) b.next)) [
    | inl e ↦ absurd (omega (arith, v.made room b.next e))
    | inr e ↦ e
  ]

  channels-subscribe :
      (room : Bytes) (c : ℕ) (b : KafkaBroker Data)
      → ((subscribe room b).1.channels c).closed
        ≡ (if b.next == c then false else (b.channels c).closed)
  unfolding subscribe
  channels-subscribe room c b = ground arith

  next-subscribe : (room : Bytes) (b : KafkaBroker Data) → (subscribe room b).1.next ≡ suc b.next
  unfolding subscribe
  next-subscribe room b = refl

  -- Who is subscribed after Subscribe.
  pub subscribed :
      (room j : Bytes) (c : ℕ) (b : KafkaBroker Data)
      → has_client (subscribers j (subscribe room b).1) c
        ≡ (has_client (subscribers j b) c || (same room j && (b.next == c)))
  unfolding has_client
  subscribed room j c b = elim (Bool-cases (same room j)) [
    | inl e ↦
        let e' = (same_iff room j).0 e in
        rw (subscribers-subscribe, e, has_client-append, e') (ground arith)
    | inr e ↦ rw (subscribers-subscribe, e) (ground arith)
  ]

  pub subscribe-IsLive :
      (room : Bytes) (b : KafkaBroker Data) → IsLive b → IsLive (subscribe room b).1
  subscribe-IsLive room b v = record {
    once = λ j. listed_once j (Bool-cases (same room j));
    opened = λ j c h. opened_after j c h;
    made = λ j c h. made_after j c h;
    one_room = λ j k c h h'. ground (
      arith,
      subscribed room j c b,
      subscribed room k c b,
      h,
      h',
      v.one_room j k c,
      v.made j c,
      v.made k c,
      same_iff room j,
      same_iff room k,
      same_iff j k,
    );
  }
    where
      listed_once :
          (j : Bytes)
          → (same room j ≡ true) ⊎ (same room j ≡ false)
          → NoDuplicates (subscribers j (subscribe room b).1)
      listed_once j (inl e) =
          rw (subscribers-subscribe, e)
            (NoDuplicates-append (subscribers room b) b.next (v.once room) (unmade b v room))
      listed_once j (inr e) = rw (subscribers-subscribe, e) (v.once j)

      opened_after :
          (j : Bytes) (c : ℕ)
          → has_client (subscribers j (subscribe room b).1) c ≡ true
          → ((subscribe room b).1.channels c).closed ≡ false
      opened_after j c h =
          ground (arith, subscribed room j c b, h, v.opened j c, channels-subscribe room c b)

      made_after :
          (j : Bytes) (c : ℕ)
          → has_client (subscribers j (subscribe room b).1) c ≡ true
          → c < (subscribe room b).1.next
      made_after j c h = ground (arith, subscribed room j c b, h, v.made j c, next-subscribe room b)

  -- Who is subscribed after a cancellation.
  pub still_subscribed :
      (room j : Bytes) (c d : ℕ) (b : KafkaBroker Data)
      → IsLive b
      → has_client (subscribers j (cancelled room c b)) d
        ≡ (has_client (subscribers j b) d && not (same room j && (c == d)))
  still_subscribed room j c d b v = elim (Bool-cases (same room j)) [
    | inl e ↦
        let e' = (same_iff room j).0 e in
        rw (subscribers-cancelled, e)
          (has_client-drop_channel c d (subscribers room b) (v.once room)
            ∙ ap (λ k. has_client (subscribers k b) d && not (c == d)) e')
    | inr e ↦ rw (subscribers-cancelled, e) (ground arith)
  ]

  pub cancelled-IsLive :
      (room : Bytes) (c : ℕ) (b : KafkaBroker Data)
      → has_client (subscribers room b) c ≡ true
      → IsLive b
      → IsLive (cancelled room c b)
  cancelled-IsLive room c b sub v = record {
    once = λ j. listed_once j (Bool-cases (same room j));
    opened = λ j d h.
        ground (arith, still_subscribed room j c d b v, h, v.opened j d, v.one_room room j c sub);
    made = λ j d h. ground (arith, still_subscribed room j c d b v, h, v.made j d);
    one_room = λ j k d h h'. ground (
      arith,
      still_subscribed room j c d b v,
      still_subscribed room k c d b v,
      h,
      h',
      v.one_room j k d,
    );
  }
    where
      listed_once :
          (j : Bytes)
          → (same room j ≡ true) ⊎ (same room j ≡ false)
          → NoDuplicates (subscribers j (cancelled room c b))
      listed_once j (inl e) =
          rw (subscribers-cancelled, e)
            (NoDuplicates-drop_channel c (subscribers room b) (v.once room))
      listed_once j (inr e) = rw (subscribers-cancelled, e) (v.once j)

  -- Handing out a payload to open channels does not panic, and closes none.
  pub hand_out_open :
      (payload : Data) (cs : List ℕ) (store : ℕ → Chan Data)
      → All (λ c. (store c).closed ≡ false) cs
      → (store' : ℕ → Chan Data) × (hand_out payload cs store ≡ ok store')
        × ((c : ℕ) → (store' c).closed ≡ (store c).closed)
  unfolding hand_out
  hand_out_open payload [] store h = (store, refl, λ c. refl)
  hand_out_open payload (c ∷ cs) store (h, hs) =
      let store1 = update store c (offer payload (store c)) in
      let kept : (d : ℕ) → (store1 d).closed ≡ (store d).closed =
        λ d. ground (arith, closed-offer payload (store c)) in
      let (store', e, closed) = hand_out_open payload cs store1 (
        All-map (λ d. (store d).closed ≡ false) (λ d. (store1 d).closed ≡ false) (λ d o. kept d ∙ o)
          cs hs) in
      (store', rw (try_send_open payload (store c) h, hand_out) e, λ d. closed d ∙ kept d)

  pub channels-IsLive :
      (b : KafkaBroker Data) (store : ℕ → Chan Data)
      → ((c : ℕ) → (store c).closed ≡ (b.channels c).closed)
      → IsLive b
      → IsLive (record b { channels = store })
  unfolding subscribers
  channels-IsLive b store closed v = record {
    once = v.once;
    opened = λ room c h. closed c ∙ v.opened room c h;
    made = v.made;
    one_room = v.one_room;
  }
