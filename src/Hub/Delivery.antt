-- ===== src/Hub/Delivery.antt =====
-- What a broadcast does to the clients: `Broadcast` and `forwardFromBroker`.
use chat_service.Hub.Clients.{NoDuplicates}
use chat_service.Hub.View.{members}
use chat_service.Chan.{try_send_open, closed-offer, offer}
use chat_service.Hub.{
  room_at, members_of, Hub, broadcast_local, update, has_client, deliver, Client,
}
use chat_service.Broker.{Broker}
use chat_service.Proto.{ServerMessage}
use chat_service.Prelude.{
  ◌∙◌, ==_iff, refl, inr, inl, ◌==◌, Bool-cases, All-map, if◌then◌else◌, [], ok, All, arith, false,
  ◌≡◌, ◌∷◌, ℕ, List,
}

abbrev pub IsOpen : (ℕ → Client) → ℕ → Type 0
IsOpen store c = (store c).send.closed ≡ false

-- The client after one message is offered to its channel.
abbrev pub offered : ServerMessage → Client → Client
offered m cl = record cl { send = offer m cl.send }

IsOpen-update :
    (m : ServerMessage) (c d : ℕ) (store : ℕ → Client)
    → IsOpen store d
    → IsOpen (update store c (offered m (store c))) d
IsOpen-update m c d store h = ground (arith, closed-offer m (store c).send)

offered_cons :
    (m : ServerMessage) (c : ℕ) (cs : List ℕ) (d : ℕ) (store : ℕ → Client)
    → has_client cs c ≡ false
    → let store1 = update store c (offered m (store c)) in
      (if has_client cs d then offered m (store1 d) else store1 d)
      ≡ (if has_client (c ∷ cs) d then offered m (store d) else store d)
unfolding has_client
offered_cons m c cs d store h = elim (Bool-cases (c == d)) [
  | inl x ↦ let e = (==_iff c d).0 x in rw (x, ← e, h) refl
  | inr x ↦ rw x refl
]

module _ {Data : Type 0} (b : Broker Data) where
  -- Every listed client is offered the message once, and no other client is touched.
  pub deliver_lem :
      (m : ServerMessage) (cs : List ℕ) (store : ℕ → Client)
      → NoDuplicates cs
      → All (IsOpen store) cs
      → (store' : ℕ → Client) × (deliver b m cs store ≡ ok store')
        × ((c : ℕ) → store' c ≡ (if has_client cs c then offered m (store c) else store c))
  unfolding deliver has_client
  deliver_lem m [] store nd op = (store, refl, λ c. refl)
  deliver_lem m (c ∷ cs) store nd op =
      let store1 = update store c (offered m (store c)) in
      let (store', e, at) =
        deliver_lem m cs store1 nd.1
          (All-map (IsOpen store) (IsOpen store1) (λ d. IsOpen-update m c d store) cs op.1) in
      (
        store',
        rw (try_send_open m (store c).send op.0, deliver) e,
        λ d. at d ∙ offered_cons m c cs d store nd.0,
      )

  -- Where the clients of the room are open and none is listed twice, the first half of Broadcast
  -- does not panic, offers the message once to each client of the room, changes no other client, and
  -- leaves the rooms, the broker and the count of connections alone.
  pub broadcast_local_lem :
      (m : ServerMessage) (h : Hub b)
      → NoDuplicates (members b m.room_id h)
      → All (IsOpen h.clients) (members b m.room_id h)
      → (store' : ℕ → Client) × (broadcast_local b m h ≡ ok (record h { clients = store' }))
        × ((c : ℕ)
            → store' c ≡ (
                if has_client (members b m.room_id h) c
                then offered m (h.clients c)
                else h.clients c))
  unfolding broadcast_local members
  broadcast_local_lem m h nd op =
      let (store', e, at) = deliver_lem m (members_of b (room_at b m.room_id h)) h.clients nd op in
      (store', rw (e, broadcast_local) refl, at)
