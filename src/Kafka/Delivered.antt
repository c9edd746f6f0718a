-- ===== src/Kafka/Delivered.antt =====
-- What a subscription receives of the messages that the loop of app/broker/kafka_broker.go fetches,
-- while others subscribe.
use chat_service.Kafka.Run.{Run, Run-IsLive}
use chat_service.Hub.Clients.{All-has_client}
use chat_service.Prelude.{
  subst, append-nil, sym, All, ap, refl, ◌∙◌, ◌≡◌, ◌≤◌, ◌<◌, ◌+◌, ◌++◌, ◌∷◌, [], length,
  append_assoc, length-append, true, false, ok, arith, Bool-cases, inl, inr, if◌then◌else◌, ltb,
  ◌⊎◌, ℕ, List, Bool,
}
use chat_service.Text.{Bytes, same, same_iff}
use chat_service.Chan.{Chan, offer}
use chat_service.Hub.{has_client}
use chat_service.Kafka.{consume, consume_one, Round, KafkaBroker, subscribers}
use chat_service.Kafka.Live.{IsLive}
use chat_service.Kafka.Sends.{Grown, Grown-trans, OnlySubscribes, Ready, changed_lem, send_all_lem}

-- Nobody cancels during the rounds.
abbrev pub Uncancelled : {Data : Type 0} → List (Round Data) → Type 0
Uncancelled rs = All (λ r. OnlySubscribes r.before × ((i : ℕ) → OnlySubscribes (r.between i))) rs

module _ {Data : Type 0} where
  -- What is fetched for a room, in order.
  unfoldable pub for_room : Bytes → List (Round Data) → List Data
  for_room room [] = []
  for_room room (r ∷ rs) =
      let rest = for_room room rs in
      if same r.message.key room then r.message.value ∷ rest else rest

  -- The subscription `c` of a room is one for the messages of that room only.
  its_own :
      (room key : Bytes) (c : ℕ) (b : KafkaBroker Data)
      → IsLive b
      → has_client (subscribers room b) c ≡ true
      → has_client (subscribers key b) c ≡ same key room
  its_own room key c b v sub = elim (Bool-cases (same key room)) [
    | inl e ↦ rw e (ap (λ k. has_client (subscribers k b) c) ((same_iff key room).0 e) ∙ sub)
    | inr e ↦ rw e (absent (Bool-cases (has_client (subscribers key b) c)) e)
  ]
    where
      absent :
          (has_client (subscribers key b) c ≡ true) ⊎ (has_client (subscribers key b) c ≡ false)
          → same key room ≡ false
          → has_client (subscribers key b) c ≡ false
      absent (inl there) e = absurd (cc (v.one_room key room c there sub, e))
      absent (inr gone) e = gone

  -- Room for one more, and what is in the channel then.
  offer_room :
      (p : Bool) (payload : Data) (rest : List Data) (ch : Chan Data)
      → length ch.buffer + length (if p then payload ∷ rest else rest) ≤ ch.capacity
      → let ch' = if p then offer payload ch else ch in
        (length ch'.buffer + length rest ≤ ch'.capacity)
        × (ch'.buffer ++ rest ≡ ch.buffer ++ (if p then payload ∷ rest else rest))
  offer_room true payload rest ch h =
      let fits : ltb (length ch.buffer) ch.capacity ≡ true = ground (arith, h) in
      rw fits (
        (
          omega (arith, h, length-append ch.buffer (payload ∷ [])),
          append_assoc ch.buffer (payload ∷ []) rest,
        ))
  offer_room false payload rest ch h = (h, refl)

  Ready-subscribers :
      (room : Bytes) (b : KafkaBroker Data) → IsLive b → Ready b (subscribers room b)
  Ready-subscribers room b v =
      All-has_client (λ c. (c < b.next) × ((b.channels c).closed ≡ false)) (subscribers room b)
        (λ c h. (v.made room c h, v.opened room c h))

  -- A round offers its message to the subscription if it is one for the message's room.
  consume_one_lem :
      (r : Round Data) (room : Bytes) (c : ℕ) (b : KafkaBroker Data)
      → IsLive b
      → OnlySubscribes r.before × ((i : ℕ) → OnlySubscribes (r.between i))
      → (b' : KafkaBroker Data) × (consume_one r b ≡ ok b')
        × Grown b b'
        × (has_client (subscribers room b) c ≡ true
            → b'.channels c ≡ (
                if same r.message.key room
                then offer r.message.value (b.channels c)
                else b.channels c))
  unfolding consume_one
  consume_one_lem r room c b v only =
      let (b1, e1, g1, kept) = changed_lem r.before b v only.0 in
      let cs = subscribers r.message.key b1 in
      let (b2, e2, g2, at) =
        send_all_lem r.between r.message.value cs b1 only.1 g1.live (g1.live.once r.message.key)
          (Ready-subscribers r.message.key b1 g1.live) in
      (
        b2,
        rw (e1, e2) refl,
        Grown-trans g1 g2,
        λ sub.
            let made = v.made room c sub in
            at c (omega (arith, g1.more, made))
            ∙ ap (λ p. if p then offer r.message.value (b1.channels c) else b1.channels c)
                (its_own room r.message.key c b1 g1.live (g1.stands room c made ∙ sub))
            ∙ ap (λ ch. if same r.message.key room then offer r.message.value ch else ch)
                (kept c made),
      )

  consume_lem :
      (rs : List (Round Data)) (room : Bytes) (c : ℕ) (b : KafkaBroker Data)
      → IsLive b
      → Uncancelled rs
      → has_client (subscribers room b) c ≡ true
      → length (b.channels c).buffer + length (for_room room rs) ≤ (b.channels c).capacity
      → (b' : KafkaBroker Data) × (consume rs b ≡ ok b')
        × ((b'.channels c).buffer ≡ (b.channels c).buffer ++ for_room room rs)
  unfolding consume for_room
  consume_lem [] room c b v only sub h = (b, refl, sym (append-nil (b.channels c).buffer))
  consume_lem (r ∷ rs) room c b v only sub h =
      let (b1, e1, g, at) = consume_one_lem r room c b v only.0 in
      let payload = r.message.value in
      let here = at sub in
      let (fits, kept) =
        offer_room (same r.message.key room) payload (for_room room rs) (b.channels c) h in
      let (b2, e2, got) =
        consume_lem rs room c b1 g.live only.1 (g.stands room c (v.made room c sub) ∙ sub) (
          subst (λ (x : Chan Data). length x.buffer + length (for_room room rs) ≤ x.capacity)
            (sym here) fits) in
      (b2, rw (e1, e2) refl, got ∙ ap (λ (x : Chan Data). x.buffer ++ for_room room rs) here ∙ kept)

  -- In every state that the broker reaches: while nobody cancels a subscription, and whoever subscribes
  -- in between, before or after the loop has read the channels, the loop of a process with a subscription
  -- whose channel has space for the messages of its room does not panic on the messages that it fetches,
  -- and the subscription then has received exactly those of its room, once each and in the order in which
  -- they were fetched. Nothing is taken from its channel meanwhile.
  pub consume_in_order :
      {b : KafkaBroker Data} (rs : List (Round Data)) (room : Bytes) (c : ℕ)
      → Run b
      → Uncancelled rs
      → has_client (subscribers room b) c ≡ true
      → length (b.channels c).buffer + length (for_room room rs) ≤ (b.channels c).capacity
      → (b' : KafkaBroker Data) × (consume rs b ≡ ok b')
        × ((b'.channels c).buffer ≡ (b.channels c).buffer ++ for_room room rs)
  consume_in_order {b} rs room c r = consume_lem rs room c b (Run-IsLive r)
