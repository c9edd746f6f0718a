-- ===== src/Kafka/Subscriptions.antt =====
-- The subscriptions of the broker: what a subscription and its cancellation leave.
use chat_service.Chan.{close_chan_open}
use chat_service.Text.Assoc.{lookup-insert, lookup-remove, lookup}
use chat_service.Hub.Clients.{NoDuplicates}
use chat_service.Prelude.{
  inr, inl, Bool-cases, ◌==◌, refl, ok, not, [], arith, ◌∷◌, true, if◌then◌else◌, ◌&&◌, false, ◌||◌,
  ◌≡◌, ◌++◌, List, ℕ,
}
use chat_service.Kafka.{
  cancel, channels_of, KafkaBroker, subscribers, subscribe, put_channels, drop_channel,
}
use chat_service.Hub.{update, has_client}
use chat_service.Text.{same, Bytes}

pub has_client-append :
    (cs ds : List ℕ) (c : ℕ) → has_client (cs ++ ds) c ≡ (has_client cs c || has_client ds c)
unfolding has_client
has_client-append [] ds c = refl
has_client-append (d ∷ cs) ds c = ground (arith, has_client-append cs ds c)

pub NoDuplicates-append :
    (cs : List ℕ) (c : ℕ) → NoDuplicates cs → has_client cs c ≡ false → NoDuplicates (cs ++ c ∷ [])
unfolding has_client
NoDuplicates-append [] c h e = (refl, tt)
NoDuplicates-append (d ∷ cs) c h e =
    ground (arith, has_client-append cs (c ∷ []) d, NoDuplicates-append cs c h.1)

pub has_client-drop_channel :
    (c d : ℕ) (cs : List ℕ)
    → NoDuplicates cs
    → has_client (drop_channel c cs) d ≡ (has_client cs d && not (c == d))
unfolding has_client drop_channel
has_client-drop_channel c d [] h = refl
has_client-drop_channel c d (e ∷ cs) h = ground (arith, has_client-drop_channel c d cs h.1)

pub NoDuplicates-drop_channel :
    (c : ℕ) (cs : List ℕ) → NoDuplicates cs → NoDuplicates (drop_channel c cs)
unfolding drop_channel
NoDuplicates-drop_channel c [] h = tt
NoDuplicates-drop_channel c (d ∷ cs) h =
    ground (arith, has_client-drop_channel c d cs h.1, NoDuplicates-drop_channel c cs h.1)

subscribers-put_channels :
    (room j : Bytes) (cs : List ℕ) (subs : List (Bytes × List ℕ))
    → channels_of (lookup j (put_channels room cs subs))
      ≡ (if same room j then cs else channels_of (lookup j subs))
unfolding put_channels
subscribers-put_channels room j [] subs = elim (Bool-cases (same room j)) [
  | inl e ↦ rw (lookup-remove, e) refl
  | inr e ↦ rw (lookup-remove, e) refl
]
subscribers-put_channels room j (c ∷ cs) subs = elim (Bool-cases (same room j)) [
  | inl e ↦ rw (lookup-insert, e) refl
  | inr e ↦ rw (lookup-insert, e) refl
]

module _ {Data : Type 0} where
  -- A new subscription adds its channel to its room and changes no other room.
  pub subscribers-subscribe :
      (room j : Bytes) (b : KafkaBroker Data)
      → subscribers j (subscribe room b).1
        ≡ (if same room j then subscribers room b ++ b.next ∷ [] else subscribers j b)
  unfolding subscribe subscribers
  subscribers-subscribe room j b = elim (Bool-cases (same room j)) [
    | inl e ↦ rw (lookup-insert, e) refl
    | inr e ↦ rw (lookup-insert, e) refl
  ]

  -- The broker after the cancellation of an open channel.
  abbrev pub cancelled : Bytes → ℕ → KafkaBroker Data → KafkaBroker Data
  cancelled room c b = record b {
    subs = put_channels room (drop_channel c (subscribers room b)) b.subs;
    channels = update b.channels c (record (b.channels c) { closed = true });
  }

  pub cancel_open :
      (room : Bytes) (c : ℕ) (b : KafkaBroker Data)
      → (b.channels c).closed ≡ false
      → cancel room c b ≡ ok (cancelled room c b)
  unfolding cancel
  cancel_open room c b h = rw (close_chan_open (b.channels c) h, cancel) refl

  pub subscribers-cancelled :
      (room j : Bytes) (c : ℕ) (b : KafkaBroker Data)
      → subscribers j (cancelled room c b)
        ≡ (if same room j then drop_channel c (subscribers room b) else subscribers j b)
  unfolding subscribers
  subscribers-cancelled room j c b = subscribers-put_channels room j _ b.subs
