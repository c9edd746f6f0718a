-- ===== src/Server/Stream.antt =====
-- The life of one `Chat` call of app/server/grpc_server.go after `Register`: the handler, which
-- receives frames and then waits on `done`, the sender goroutine, which drains the client's channel,
-- and the rest of the service, which broadcasts to the room, interleaved in any order.
pub mod Drain
use chat_service.Proto.{ServerMessage}
use chat_service.Chan.{
  offer-le-capacity, close_chan_open, closed-offer, try_send, make_chan, close_chan, Chan,
}
use chat_service.Prelude.{
  refl, [], ◌≤◌, ok, ◌∷◌, length, List, ap, false, arith, ◌≢◌, true, ◌≡◌, Bool,
}

-- What the handler is at: the receive loop, `<-done`, or after the deferred calls.
pub data Phase : Type 0 where
  receiving waiting finished : Phase

pub record Stream : Type 0 where
  pub phase : Phase
  -- `done` is still open
  pub sending : Bool
  pub channel : Chan ServerMessage

-- One step of the call itself: of its handler or of its sender.
pub data OwnStep (s : Stream) : Stream → Type 0 where
  -- stream.Recv returned a frame, which processIncoming handled
  recv : s.phase ≡ receiving → OwnStep s s
  -- stream.Recv failed: the loop ends
  recv_fails : s.phase ≡ receiving → OwnStep s (record s { phase = waiting })
  -- stream.Send of the next message succeeded
  send :
      {m : ServerMessage} {rest : List ServerMessage}
      → s.sending ≡ true
      → s.channel.buffer ≡ m ∷ rest
      → OwnStep s (record s { channel = record (s.channel) { buffer = rest } })
  -- stream.Send failed: the goroutine returns and closes `done`
  send_fails :
      {m : ServerMessage} {rest : List ServerMessage}
      → s.sending ≡ true
      → s.channel.buffer ≡ m ∷ rest
      → OwnStep s (record s { sending = false; channel = record (s.channel) { buffer = rest } })
  -- `range client.Send` ends on a channel that is closed and drained
  drained :
      s.sending ≡ true
      → s.channel.closed ≡ true
      → s.channel.buffer ≡ []
      → OwnStep s (record s { sending = false })
  -- `<-done` returns, and the deferred Unregister closes the channel
  finish :
      {ch : Chan ServerMessage}
      → s.phase ≡ waiting
      → s.sending ≡ false
      → close_chan s.channel ≡ ok ch
      → OwnStep s (record s { phase = finished; channel = ch })

-- A step of the call, or a broadcast to its room while the client is registered.
pub data Step (s : Stream) : Stream → Type 0 where
  own : {t : Stream} → OwnStep s t → Step s t
  broadcast :
      {ch : Chan ServerMessage} (m : ServerMessage)
      → s.phase ≢ finished
      → try_send m s.channel ≡ ok ch
      → Step s (record s { channel = ch })

-- After Register: the loop and the sender run, and the channel is new.
abbrev pub opened : Stream
opened = record { phase = receiving; sending = true; channel = make_chan 256 }

pub data Reach : Stream → Type 0 where
  start : Reach opened
  next : {s t : Stream} → Reach s → Step s t → Reach t

-- The channel is open until the handler is done, and the handler is done only after the sender is.
pub record Inv (s : Stream) : Type 0 where
  pub open_until_finished : s.phase ≢ finished → s.channel.closed ≡ false
  pub sender_first : s.phase ≡ finished → s.sending ≡ false
  pub bounded : length s.channel.buffer ≤ s.channel.capacity
  pub small : s.channel.capacity ≡ 256

opened-Inv : Inv opened
opened-Inv = record {
  open_until_finished = λ h. refl;
  sender_first = λ h. cc;
  bounded = omega arith;
  small = refl;
}

OwnStep-Inv : {s t : Stream} → OwnStep s t → Inv s → Inv t
unfolding close_chan
OwnStep-Inv (recv p) v = v
OwnStep-Inv (recv_fails p) v = record {
  open_until_finished = λ h. v.open_until_finished (λ e. cc);
  sender_first = λ h. cc;
  bounded = v.bounded;
  small = v.small;
}
OwnStep-Inv (send p e) v = record {
  open_until_finished = v.open_until_finished;
  sender_first = v.sender_first;
  bounded = omega (arith, v.bounded, ap length e);
  small = v.small;
}
OwnStep-Inv (send_fails p e) v = record {
  open_until_finished = v.open_until_finished;
  sender_first = λ h. refl;
  bounded = omega (arith, v.bounded, ap length e);
  small = v.small;
}
OwnStep-Inv (drained p c e) v = record {
  open_until_finished = v.open_until_finished;
  sender_first = λ h. refl;
  bounded = v.bounded;
  small = v.small;
}
OwnStep-Inv (finish p q e) v = record {
  open_until_finished = λ h. absurd (h refl);
  sender_first = λ h. q;
  bounded = ground (arith, v.bounded);
  small = ground (arith, v.small);
}

Step-Inv : {s t : Stream} → Step s t → Inv s → Inv t
unfolding try_send
Step-Inv (own st) v = OwnStep-Inv st v
Step-Inv {s} (broadcast m p e) v = record {
  open_until_finished = λ h. ground (arith, v.open_until_finished p, closed-offer m s.channel);
  sender_first = λ h. absurd (p h);
  bounded = ground (arith, v.bounded, v.open_until_finished p, offer-le-capacity m s.channel);
  small = ground (arith, v.small, v.open_until_finished p);
}

-- In every reachable state of a call the channel is open until the handler has finished, the sender
-- has returned by then, and at most 256 messages wait in the channel.
pub Reach-Inv : {s : Stream} → Reach s → Inv s
Reach-Inv start = opened-Inv
Reach-Inv (next r st) = Step-Inv st (Reach-Inv r)

no-OwnStep :
    {s t : Stream}
    → Inv s
    → s.phase ≡ waiting
    → s.channel.buffer ≡ []
    → s.sending ≡ true
    → ¬ OwnStep s t
no-OwnStep v w b run (recv p) = cc
no-OwnStep v w b run (recv_fails p) = cc
no-OwnStep v w b run (send p e) = cc
no-OwnStep v w b run (send_fails p e) = cc
no-OwnStep v w b run (drained p c e) = cc (v.open_until_finished (λ x. cc))
no-OwnStep v w b run (finish p q e) = cc

-- In a reachable state where receiving has failed and the sender has nothing to send and has not
-- failed, the call has no step of its own: it goes on only when somebody broadcasts to the room.
pub waiting_is_stuck :
    {s t : Stream}
    → Reach s
    → s.phase ≡ waiting
    → s.channel.buffer ≡ []
    → s.sending ≡ true
    → ¬ OwnStep s t
waiting_is_stuck r w b run = no-OwnStep (Reach-Inv r) w b run

-- In every reachable state the deferred close of the channel does not panic, for a handler that has
-- not finished.
pub close_is_safe :
    {s : Stream}
    → Reach s
    → s.phase ≢ finished
    → (ch : Chan ServerMessage) × (close_chan s.channel ≡ ok ch)
close_is_safe {s} r p = (
  record (s.channel) { closed = true },
  close_chan_open s.channel ((Reach-Inv r).open_until_finished p),
)
