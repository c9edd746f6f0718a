-- ===== src/Hub/View.antt =====
-- The hub as a client sees it: for each room the clients in it. The shards are not seen.
use chat_service.Chan.{close_chan_open}
use chat_service.Text.Assoc.{lookup-remove, lookup-insert}
use chat_service.Hub.Shard.{shard_index}
use chat_service.Prelude.{
  true, false, pred_ℤ, ◌∷◌, ok, ◌∙◌, ap, refl, [], Option, inr, arith, inl, ◌==◌, Bool-cases, none,
  some, if◌then◌else◌, ℕ, ◌≡◌, List,
}
use chat_service.Hub.{
  update, unregister, Client, unregister_in, leave, run_cancel, delete_client, no_clients,
  add_client, register, register_in, members_of, Room, delete_room, put_room, Hub, room_at,
}
use chat_service.Broker.{Broker}
use chat_service.Text.{same_iff, same, Bytes}

module _ {Data : Type 0} (b : Broker Data) where
  -- What the hub promises to be: a map from rooms to clients.
  unfoldable pub members : Bytes → Hub b → List ℕ
  unfolding room_at
  members room h = members_of b (room_at b room h)

  room_at-put_room :
      (k j : Bytes) (r : Room b) (h : Hub b)
      → room_at b j (put_room b k r h) ≡ (if same k j then some r else room_at b j h)
  unfolding room_at put_room
  room_at-put_room k j r h = elim (Bool-cases (shard_index k == shard_index j)) [
    | inl e ↦ ground (arith, lookup-insert k j r (h.shards (shard_index k)), same_iff k j)
    | inr e ↦ ground (arith, same_iff k j)
  ]

  room_at-delete_room :
      (k j : Bytes) (h : Hub b)
      → room_at b j (delete_room b k h) ≡ (if same k j then none else room_at b j h)
  unfolding room_at delete_room
  room_at-delete_room k j h = elim (Bool-cases (shard_index k == shard_index j)) [
    | inl e ↦ ground (arith, lookup-remove k j (h.shards (shard_index k)), same_iff k j)
    | inr e ↦ ground (arith, same_iff k j)
  ]

  abbrev pub joined : Option (Room b) → Bytes → ℕ → Hub b → Room b
  joined none k c h = record { clients = add_client c []; cancel = (b.subscribe k h.broker).0 }
  joined (some r) k c h = record r { clients = add_client c r.clients }

  room_at-register_in :
      (o : Option (Room b)) (k : Bytes) (c : ℕ) (h : Hub b) (j : Bytes)
      → room_at b j (register_in b o k c h)
        ≡ (if same k j then some (joined o k c h) else room_at b j h)
  unfolding register_in room_at
  room_at-register_in none k c h j =
      room_at-put_room k j _ (record h { broker = (b.subscribe k h.broker).1 })
  room_at-register_in (some r) k c h j = room_at-put_room k j _ h

  -- The room of the client after Register, and every other room.
  pub room_at-register :
      (c : ℕ) (h : Hub b) (j : Bytes)
      → let k = (h.clients c).room_id in
        room_at b j (register b c h)
        ≡ (if same k j then some (joined (room_at b k h) k c h) else room_at b j h)
  unfolding register room_at
  room_at-register c h j =
      let k = (h.clients c).room_id in room_at-register_in (room_at b k h) k c h j

  members-joined :
      (o : Option (Room b)) (k : Bytes) (c : ℕ) (h : Hub b)
      → (joined o k c h).clients ≡ add_client c (members_of b o)
  members-joined none k c h = refl
  members-joined (some r) k c h = refl

  -- Register adds the client to the room that it names, and to no other room.
  pub members-register :
      (c : ℕ) (h : Hub b) (j : Bytes)
      → members j (register b c h)
        ≡ (if same (h.clients c).room_id j then add_client c (members j h) else members j h)
  unfolding members
  members-register c h j =
      let k = (h.clients c).room_id in
      elim (Bool-cases (same k j)) [
        | inl e ↦ rw e (
            ap (members_of b) (
              room_at-register c h j
              ∙ ap (λ t. if t then some (joined (room_at b k h) k c h) else room_at b j h) e)
            ∙ members-joined (room_at b k h) k c h
            ∙ ap (λ i. add_client c (members_of b (room_at b i h))) ((same_iff k j).0 e))
        | inr e ↦ rw e (
            ap (members_of b) (
              room_at-register c h j
              ∙ ap (λ t. if t then some (joined (room_at b k h) k c h) else room_at b j h) e))
      ]

  abbrev pub left : ℕ → Room b → Option (Room b)
  left c r =
      if no_clients (delete_client c r.clients)
      then none
      else some (record r { clients = delete_client c r.clients })

  members-left : (c : ℕ) (r : Room b) → members_of b (left c r) ≡ delete_client c r.clients
  members-left c r = go (delete_client c r.clients)
    where
      go :
          (rest : List ℕ)
          → members_of b (if no_clients rest then none else some (record r { clients = rest }))
            ≡ rest
      go [] = refl
      go (d ∷ ds) = refl

  room_at-run_cancel :
      (o : Option b.Handle) (h : Hub b) (j : Bytes) → room_at b j (run_cancel b o h) ≡ room_at b j h
  unfolding run_cancel room_at
  room_at-run_cancel none h j = refl
  room_at-run_cancel (some cancel) h j = refl

  room_at-leave :
      (k : Bytes) (c : ℕ) (r : Room b) (h : Hub b) (j : Bytes)
      → room_at b j (leave b k c r h) ≡ (if same k j then left c r else room_at b j h)
  unfolding leave
  room_at-leave k c r h j = elim (Bool-cases (no_clients (delete_client c r.clients))) [
    | inl e ↦ rw e (
        room_at-delete_room k j (run_cancel b r.cancel h)
        ∙ ap (λ o. if same k j then none else o) (room_at-run_cancel r.cancel h j))
    | inr e ↦ rw e (room_at-put_room k j _ h)
  ]

  abbrev pub left_of : ℕ → Option (Room b) → Option (Room b)
  left_of c none = none
  left_of c (some r) = left c r

  abbrev pub closed_client : ℕ → (ℕ → Client) → ℕ → Client
  closed_client c store =
      update store c (record (store c) { send = record ((store c).send) { closed = true } })

  abbrev pub unregistered_in : Option (Room b) → Bytes → ℕ → Hub b → Hub b
  unregistered_in none k c h = h
  unregistered_in (some r) k c h = leave b k c r (record h { clients = closed_client c h.clients })

  -- Where Unregister leads if the client's channel is open.
  abbrev pub unregistered : ℕ → Hub b → Hub b
  unregistered c h =
      let k = (h.clients c).room_id in
      let h' = unregistered_in (room_at b k h) k c h in record h' { conn_cnt = pred_ℤ h'.conn_cnt }

  unregister_in_open :
      (o : Option (Room b)) (k : Bytes) (c : ℕ) (h : Hub b)
      → (h.clients c).send.closed ≡ false
      → unregister_in b o k c h ≡ ok (unregistered_in o k c h)
  unfolding unregister_in
  unregister_in_open none k c h open_c = refl
  unregister_in_open (some r) k c h open_c =
      rw (close_chan_open (h.clients c).send open_c, unregister_in) refl

  pub unregister_open :
      (c : ℕ) (h : Hub b)
      → (h.clients c).send.closed ≡ false
      → unregister b c h ≡ ok (unregistered c h)
  unfolding unregister
  unregister_open c h open_c =
      let k = (h.clients c).room_id in
      rw (unregister_in_open (room_at b k h) k c h open_c, unregister) refl

  room_at-unregistered_in :
      (o : Option (Room b)) (k : Bytes) (c : ℕ) (h : Hub b) (j : Bytes)
      → room_at b k h ≡ o
      → room_at b j (unregistered_in o k c h) ≡ (if same k j then left_of c o else room_at b j h)
  unfolding room_at
  room_at-unregistered_in none k c h j e = ground (arith, same_iff k j, e)
  room_at-unregistered_in (some r) k c h j e =
      room_at-leave k c r (record h { clients = closed_client c h.clients }) j

  pub room_at-unregistered :
      (c : ℕ) (h : Hub b) (j : Bytes)
      → let k = (h.clients c).room_id in
        room_at b j (unregistered c h)
        ≡ (if same k j then left_of c (room_at b k h) else room_at b j h)
  unfolding room_at
  room_at-unregistered c h j =
      let k = (h.clients c).room_id in room_at-unregistered_in (room_at b k h) k c h j refl

  members-left_of :
      (c : ℕ) (o : Option (Room b)) → members_of b (left_of c o) ≡ delete_client c (members_of b o)
  unfolding delete_client
  members-left_of c none = refl
  members-left_of c (some r) = members-left c r

  pub members-unregistered :
      (c : ℕ) (h : Hub b) (j : Bytes)
      → members j (unregistered c h)
        ≡ (if same (h.clients c).room_id j then delete_client c (members j h) else members j h)
  unfolding members
  members-unregistered c h j =
      let k = (h.clients c).room_id in
      elim (Bool-cases (same k j)) [
        | inl e ↦ rw e (
            ap (members_of b) (
              room_at-unregistered c h j
              ∙ ap (λ t. if t then left_of c (room_at b k h) else room_at b j h) e)
            ∙ members-left_of c (room_at b k h)
            ∙ ap (λ i. delete_client c (members_of b (room_at b i h))) ((same_iff k j).0 e))
        | inr e ↦ rw e (
            ap (members_of b) (
              room_at-unregistered c h j
              ∙ ap (λ t. if t then left_of c (room_at b k h) else room_at b j h) e))
      ]

  -- Unregister of a client whose channel is open does not panic; it takes the client out of the room
  -- that it names and out of no other.
  pub members-unregister :
      (c : ℕ) (h : Hub b)
      → (h.clients c).send.closed ≡ false
      → (h' : Hub b) × (unregister b c h ≡ ok h')
        × ((j : Bytes)
            → members j h' ≡ (
                if same (h.clients c).room_id j
                then delete_client c (members j h)
                else members j h))
  members-unregister c h open_c =
      (unregistered c h, unregister_open c h open_c, members-unregistered c h)
