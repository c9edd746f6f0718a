-- ===== src/Chan.antt =====
-- Go's buffered channels, as far as the service uses them: a `select` that sends or drops, and
-- `close`. Sending on a closed channel and closing one twice panic.
use chat_service.Prelude.{
  true, ◌++◌, err, ltb, if◌then◌else◌, ◌∷◌, length-append, ok, arith, ◌≤◌, false, [], Bool, length,
  ◌≡◌, Result, ℕ, List,
}

pub data Panic : Type 0 where
  send_on_closed close_of_closed : Panic

pub record Chan {ℓ} (A : Type ℓ) : Type ℓ where
  pub buffer : List A
  pub capacity : ℕ
  pub closed : Bool

module _ {ℓ} {A : Type ℓ} where
  -- make(chan A, n)
  abbrev pub make_chan : ℕ → Chan A
  make_chan n = record { buffer = []; capacity = n; closed = false }

  -- What a send that does not block does to an open channel: a full one drops the value.
  abbrev pub offer : A → Chan A → Chan A
  offer a ch =
      if ltb (length ch.buffer) ch.capacity then record ch { buffer = ch.buffer ++ a ∷ [] } else ch

  -- select { case ch <- a: default: }
  unfoldable pub try_send : A → Chan A → Result Panic (Chan A)
  try_send a ch = if ch.closed then err send_on_closed else ok (offer a ch)

  -- close(ch)
  unfoldable pub close_chan : Chan A → Result Panic (Chan A)
  close_chan ch = if ch.closed then err close_of_closed else ok (record ch { closed = true })

  pub try_send_open : (a : A) (ch : Chan A) → ch.closed ≡ false → try_send a ch ≡ ok (offer a ch)
  unfolding try_send
  try_send_open a ch h = rw h

  pub close_chan_open :
      (ch : Chan A) → ch.closed ≡ false → close_chan ch ≡ ok (record ch { closed = true })
  unfolding close_chan
  close_chan_open ch h = simp h

  -- An offer leaves a channel within its capacity, and open or closed as it was.
  pub offer-le-capacity :
      (a : A) (ch : Chan A)
      → length ch.buffer ≤ ch.capacity
      → length (offer a ch).buffer ≤ (offer a ch).capacity
  offer-le-capacity a ch h = ground (arith, length-append ch.buffer (a ∷ []))

  pub closed-offer : (a : A) (ch : Chan A) → (offer a ch).closed ≡ ch.closed
  closed-offer a ch = ground arith
