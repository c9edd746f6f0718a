-- ===== src/Kafka/Sends.antt =====
-- The sends of the loop of app/broker/kafka_broker.go, while others subscribe and nobody cancels.
use chat_service.Hub.Clients.{NoDuplicates}
use chat_service.Prelude.{
  All-map, All, ap, refl, ◌∙◌, ◌≡◌, ◌≤◌, ◌<◌, ◌∷◌, [], suc, true, false, ok, arith, Bool-cases, inl,
  inr, if◌then◌else◌, ==_iff, ◌==◌, ℕ, List, Bool,
}
use chat_service.Text.{Bytes}
use chat_service.Chan.{try_send_open, Chan, offer, closed-offer}
use chat_service.Hub.{has_client, update}
use chat_service.Kafka.{
  send_all, send_one, Change, subscribes, cancels, changed, KafkaBroker, subscribe, subscribers,
}
use chat_service.Kafka.Live.{channels-IsLive, IsLive, subscribe-IsLive, subscribed}

-- Nobody cancels.
abbrev pub OnlySubscribes : List Change → Type 0
OnlySubscribes [] = Unit
OnlySubscribes (subscribes room ∷ changes) = OnlySubscribes changes
OnlySubscribes (cancels room c ∷ changes) = ⊥

module _ {Data : Type 0} where
  -- The channel `d` after a payload was handed out to `cs`.
  abbrev pub offered_to : Data → List ℕ → (ℕ → Chan Data) → ℕ → Chan Data
  offered_to payload cs store d = if has_client cs d then offer payload (store d) else store d

  offered_to_cons :
      (payload : Data) (c : ℕ) (cs : List ℕ) (store : ℕ → Chan Data) (d : ℕ)
      → has_client cs c ≡ false
      → offered_to payload cs (update store c (offer payload (store c))) d
        ≡ offered_to payload (c ∷ cs) store d
  unfolding has_client
  offered_to_cons payload c cs store d h = elim (Bool-cases (c == d)) [
    | inl x ↦ let e = (==_iff c d).0 x in rw (x, ← e, h) refl
    | inr x ↦ rw x refl
  ]

  closed_if :
      (p : Bool) (payload : Data) (ch : Chan Data)
      → (if p then offer payload ch else ch).closed ≡ ch.closed
  closed_if true payload ch = closed-offer payload ch
  closed_if false payload ch = refl

  -- What subscriptions of others leave alone: the channels that there are, and where they stand.
  pub record Grown (b b' : KafkaBroker Data) : Type 0 where
    pub live : IsLive b'
    pub more : b.next ≤ b'.next
    pub stands :
        (room : Bytes) (d : ℕ)
        → d < b.next
        → has_client (subscribers room b') d ≡ has_client (subscribers room b) d

  -- After nothing but subscriptions the channels that there were are as they were.
  subscribe-channels :
      (room : Bytes) (b : KafkaBroker Data) (d : ℕ)
      → d < b.next
      → (subscribe room b).1.channels d ≡ b.channels d
  unfolding subscribe
  subscribe-channels room b d h = ground arith

  subscribe-next : (room : Bytes) (b : KafkaBroker Data) → (subscribe room b).1.next ≡ suc b.next
  unfolding subscribe
  subscribe-next room b = refl

  subscribe-Grown : (room : Bytes) (b : KafkaBroker Data) → IsLive b → Grown b (subscribe room b).1
  subscribe-Grown room b v = record {
    live = subscribe-IsLive room b v;
    more = omega (arith, subscribe-next room b);
    stands = λ j d h. ground (arith, subscribed room j d b);
  }

  pub Grown-trans : {b b' b'' : KafkaBroker Data} → Grown b b' → Grown b' b'' → Grown b b''
  Grown-trans {b} {b'} {b''} g h = record {
    live = h.live;
    more = omega (arith, g.more, h.more);
    stands = λ j d k. h.stands j d (omega (arith, g.more, k)) ∙ g.stands j d k;
  }

  pub changed_lem :
      (changes : List Change) (b : KafkaBroker Data)
      → IsLive b
      → OnlySubscribes changes
      → (b' : KafkaBroker Data) × (changed changes b ≡ ok b')
        × Grown b b'
        × ((d : ℕ) → d < b.next → b'.channels d ≡ b.channels d)
  unfolding changed
  changed_lem [] b v only =
      (b, refl, record { live = v; more = omega arith; stands = λ j d h. refl }, λ d h. refl)
  changed_lem (subscribes room ∷ changes) b v only =
      let g = subscribe-Grown room b v in
      let (b', e, g', kept) = changed_lem changes (subscribe room b).1 g.live only in
      (
        b',
        e,
        Grown-trans g g',
        λ d h. kept d (omega (arith, g.more, h)) ∙ subscribe-channels room b d h,
      )
  changed_lem (cancels room c ∷ changes) b v only = absurd only

  -- A send to an open channel.
  send_one_lem :
      (payload : Data) (c : ℕ) (b : KafkaBroker Data)
      → IsLive b
      → (b.channels c).closed ≡ false
      → (b' : KafkaBroker Data) × (send_one payload c b ≡ ok b')
        × Grown b b'
        × ((d : ℕ) → b'.channels d ≡ update b.channels c (offer payload (b.channels c)) d)
  unfolding send_one subscribers
  send_one_lem payload c b v open_c =
      let store = update b.channels c (offer payload (b.channels c)) in
      let closed : (d : ℕ) → (store d).closed ≡ (b.channels d).closed =
        λ d. ground (arith, closed-offer payload (b.channels c)) in
      (
        record b { channels = store },
        rw (try_send_open payload (b.channels c) open_c, send_one) refl,
        record {
          live = channels-IsLive b store closed v;
          more = omega arith;
          stands = λ room d h. refl;
        },
        λ d. refl,
      )

  -- Every channel of the list has been made and is open.
  abbrev pub Ready : KafkaBroker Data → List ℕ → Type 0
  Ready b cs = All (λ c. (c < b.next) × ((b.channels c).closed ≡ false)) cs

  Ready-kept :
      (b b' : KafkaBroker Data) (cs : List ℕ)
      → b.next ≤ b'.next
      → ((d : ℕ) → d < b.next → (b'.channels d).closed ≡ (b.channels d).closed)
      → Ready b cs
      → Ready b' cs
  Ready-kept b b' cs more closed h =
      All-map (λ c. (c < b.next) × ((b.channels c).closed ≡ false))
        (λ c. (c < b'.next) × ((b'.channels c).closed ≡ false))
        (λ c (made, o). (omega (arith, made, more), closed c made ∙ o)) cs h

  updated_alike :
      (payload : Data) (c : ℕ) (store store' : ℕ → Chan Data) (d : ℕ)
      → store c ≡ store' c
      → store d ≡ store' d
      → update store c (offer payload (store c)) d ≡ update store' c (offer payload (store' c)) d
  updated_alike payload c store store' d e e' = elim (Bool-cases (c == d)) [
    | inl y ↦ rw y (ap (offer payload) e)
    | inr n ↦ rw n e'
  ]

  closed-updated :
      (payload : Data) (c : ℕ) (store : ℕ → Chan Data) (d : ℕ)
      → (update store c (offer payload (store c)) d).closed ≡ (store d).closed
  closed-updated payload c store d = ground (arith, closed-offer payload (store c))

  -- The loop over channels that are ready offers the payload once to each, and to no other channel.
  pub send_all_lem :
      (between : ℕ → List Change) (payload : Data) (cs : List ℕ) (b : KafkaBroker Data)
      → ((i : ℕ) → OnlySubscribes (between i))
      → IsLive b
      → NoDuplicates cs
      → Ready b cs
      → (b' : KafkaBroker Data) × (send_all between payload cs b ≡ ok b')
        × Grown b b'
        × ((d : ℕ) → d < b.next → b'.channels d ≡ offered_to payload cs b.channels d)
  unfolding send_all has_client
  send_all_lem between payload [] b only v nd ready =
      (b, refl, record { live = v; more = omega arith; stands = λ j d h. refl }, λ d h. refl)
  send_all_lem between payload (c ∷ cs) b only v nd (first, rest) =
      let (b1, e1, g1, kept) = changed_lem (between 0) b v (only 0) in
      let open_c : (b1.channels c).closed ≡ false =
        ap (λ (x : Chan Data). x.closed) (kept c first.0) ∙ first.1 in
      let (b2, e2, g2, sent) = send_one_lem payload c b1 g1.live open_c in
      let g = Grown-trans g1 g2 in
      let there : (d : ℕ)
          → d < b.next
          → b2.channels d ≡ update b.channels c (offer payload (b.channels c)) d =
        λ d h.
          sent d ∙ updated_alike payload c b1.channels b.channels d (kept c first.0) (kept d h) in
      let (b3, e3, g3, at) =
        send_all_lem (λ i. between (suc i)) payload cs b2 (λ i. only (suc i)) g.live nd.1
          (Ready-kept b b2 cs g.more
            (λ d h.
              ap (λ (x : Chan Data). x.closed) (there d h) ∙ closed-updated payload c b.channels d)
            rest) in
      (
        b3,
        rw (e1, e2, e3) refl,
        Grown-trans g g3,
        λ d h.
            at d (omega (arith, g.more, h))
            ∙ ap (λ ch. if has_client cs d then offer payload ch else ch) (there d h)
            ∙ offered_to_cons payload c cs b.channels d nd.0,
      )
