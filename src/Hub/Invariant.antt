-- ===== src/Hub/Invariant.antt =====
-- The hub over any sequence of connects, disconnects and broadcasts.
use chat_service.Hub.Delivery.{IsOpen}
use chat_service.Text.Assoc.{lookup-nil}
use chat_service.Hub.Clients.{
  no_clients-add_client, has_client-add_client, NoDuplicates-add_client, NoDuplicates,
}
use chat_service.Hub.View.{room_at-register, joined, members-register, members}
use chat_service.Hub.{
  no_clients, Client, Room, has_client, room_at, Hub, put_room, register, register_in,
  new_hub_with_limit,
}
use chat_service.Prelude.{
  if◌then◌else◌, ◌∙◌, sym, arith, inr, ==_iff, inl, ◌==◌, Bool-cases, true, refl, [], ◌&&◌, none,
  ◌∷◌, ap, ℤ, length, false, succ_ℤ, some, pos, ◌≡◌, Option, ℕ, List,
}
use chat_service.Broker.{Broker}
use chat_service.Text.{same, Bytes}

module _ {Data : Type 0} (b : Broker Data) where
  -- The hub `h` while exactly the clients `cs` are connected.
  pub record Tracks (cs : List ℕ) (h : Hub b) : Type 0 where
    pub once : NoDuplicates cs
    -- the counter that AtCapacity reads
    pub counted : h.conn_cnt ≡ pos (length cs)
    -- a room holds the connected clients that name it
    pub listed :
        (room : Bytes) (c : ℕ)
        → has_client (members b room h) c ≡ (has_client cs c && same (h.clients c).room_id room)
    pub listed_once : (room : Bytes) → NoDuplicates (members b room h)
    -- a connected client's channel is open
    pub live : (c : ℕ) → has_client cs c ≡ true → IsOpen h.clients c
    -- a room without clients is not kept
    pub occupied :
        (room : Bytes) (r : Room b) → room_at b room h ≡ some r → no_clients r.clients ≡ false

  pub new_hub-Tracks :
      (st : b.State) (store : ℕ → Client) (max : ℤ) → Tracks [] (new_hub_with_limit b st store max)
  unfolding new_hub_with_limit members room_at has_client
  new_hub-Tracks st store max = record {
    once = tt;
    counted = refl;
    listed = λ room c. rw (lookup-nil {V = Room b} room) refl;
    listed_once = λ room. rw (lookup-nil {V = Room b} room) tt;
    live = λ c h. cc;
    occupied = λ room r e. cc (lookup-nil {V = Room b} room);
  }

  clients-register_in :
      (o : Option (Room b)) (k : Bytes) (c : ℕ) (h : Hub b)
      → (register_in b o k c h).clients ≡ h.clients
  unfolding register_in put_room
  clients-register_in none k c h = refl
  clients-register_in (some r) k c h = refl

  conn_cnt-register_in :
      (o : Option (Room b)) (k : Bytes) (c : ℕ) (h : Hub b)
      → (register_in b o k c h).conn_cnt ≡ h.conn_cnt
  unfolding register_in put_room
  conn_cnt-register_in none k c h = refl
  conn_cnt-register_in (some r) k c h = refl

  pub clients-register : (c : ℕ) (h : Hub b) → (register b c h).clients ≡ h.clients
  unfolding register
  clients-register c h =
      clients-register_in (room_at b (h.clients c).room_id h) (h.clients c).room_id c h

  conn_cnt-register : (c : ℕ) (h : Hub b) → (register b c h).conn_cnt ≡ succ_ℤ h.conn_cnt
  unfolding register
  conn_cnt-register c h =
      ap succ_ℤ (conn_cnt-register_in (room_at b (h.clients c).room_id h) (h.clients c).room_id c h)

  module _ (cs : List ℕ) (c : ℕ) (h : Hub b) (t : Tracks cs h)
      (fresh : has_client cs c ≡ false) where
    listed-register :
        (room : Bytes) (d : ℕ)
        → has_client (members b room (register b c h)) d
          ≡ (has_client (c ∷ cs) d && same ((register b c h).clients d).room_id room)
    unfolding has_client
    listed-register room d =
        rw (members-register b c h room, clients-register c h)
          (elim (Bool-cases (same (h.clients c).room_id room)) [
            | inl s ↦
                rw s
                  (ground (arith, s, has_client-add_client c d (members b room h), t.listed room d))
            | inr s ↦ rw s (ground (arith, s, t.listed room d))
          ])

    listed_once-register : (room : Bytes) → NoDuplicates (members b room (register b c h))
    listed_once-register room =
        rw (members-register b c h room) (elim (Bool-cases (same (h.clients c).room_id room)) [
          | inl s ↦ rw s (NoDuplicates-add_client c (members b room h) (t.listed_once room))
          | inr s ↦ rw s (t.listed_once room)
        ])

    occupied-joined :
        (o : Option (Room b)) (k : Bytes) (r : Room b)
        → some (joined b o k c h) ≡ some r
        → no_clients r.clients ≡ false
    occupied-joined none k r e = ground (arith, no_clients-add_client c [])
    occupied-joined (some q) k r e = ground (arith, no_clients-add_client c q.clients)

    occupied-register :
        (room : Bytes) (r : Room b)
        → room_at b room (register b c h) ≡ some r
        → no_clients r.clients ≡ false
    occupied-register room r e =
        let k = (h.clients c).room_id in
        elim (Bool-cases (same k room)) [
          | inl s ↦ occupied-joined (room_at b k h) k r (
              sym (
                room_at-register b c h room
                ∙ ap (λ x. if x then some (joined b (room_at b k h) k c h) else room_at b room h) s)
              ∙ e)
          | inr s ↦ t.occupied room r (
              sym (
                room_at-register b c h room
                ∙ ap (λ x. if x then some (joined b (room_at b k h) k c h) else room_at b room h) s)
              ∙ e)
        ]

    -- Register of a client that is not connected and whose channel is open connects it.
    pub register-Tracks : IsOpen h.clients c → Tracks (c ∷ cs) (register b c h)
    unfolding has_client
    register-Tracks open_c = record {
      once = (fresh, t.once);
      counted = conn_cnt-register c h ∙ ap succ_ℤ t.counted;
      listed = listed-register;
      listed_once = listed_once-register;
      live = λ d x. rw (clients-register c h) (elim (Bool-cases (c == d)) [
        | inl s ↦ ground (arith, (==_iff c d).0 s)
        | inr s ↦ t.live d (ground arith)
      ]);
      occupied = occupied-register;
    }
