-- ===== src/Server/Stream/Drain.antt =====
-- The end of a `Chat` call of app/server/grpc_server.go: how many steps of its own it can still take.
use chat_service.Proto.{ServerMessage}
use chat_service.Chan.{Chan, close_chan}
use chat_service.Prelude.{ok, ap, false, arith, length, true, ◌≤◌, ◌<◌, ◌+◌, suc, ◌≡◌, ◌≢◌, Bool, ℕ}
use chat_service.Server.Stream.{
  OwnStep, Phase, Reach, Reach-Inv, Stream, drained, finish, finished, receiving, recv, recv_fails,
  send, send_fails, waiting,
}

-- A run of steps of the call itself, while nobody broadcasts.
pub data OwnRun (s : Stream) : Stream → Type 0 where
  at_rest : OwnRun s s
  then_step : {t u : Stream} → OwnRun s t → OwnStep t u → OwnRun s u

abbrev pub run_length : {s t : Stream} → OwnRun s t → ℕ
run_length at_rest = 0
run_length (then_step r st) = suc (run_length r)

abbrev phases_left : Phase → ℕ
phases_left receiving = 2
phases_left waiting = 1
phases_left finished = 0

abbrev senders_left : Bool → ℕ
senders_left true = 1
senders_left false = 0

-- What is left to do: the phases of the handler, the end of the sender and the waiting messages.
abbrev left : Stream → ℕ
left s = phases_left s.phase + senders_left s.sending + length s.channel.buffer

senders_le : (b : Bool) → senders_left b ≤ 1
senders_le true = omega arith
senders_le false = omega arith

close_keeps :
    (c ch : Chan ServerMessage) → close_chan c ≡ ok ch → length ch.buffer ≡ length c.buffer
unfolding close_chan
close_keeps c ch e = ground arith

OwnStep-left :
    {s t : Stream} → OwnStep s t → s.phase ≢ receiving → (left t < left s) × (t.phase ≢ receiving)
OwnStep-left (recv p) h = absurd (h p)
OwnStep-left (recv_fails p) h = absurd (h p)
OwnStep-left (send p e) h = (omega (arith, ap length e), h)
OwnStep-left (send_fails p e) h = (omega (arith, ap length e, ap senders_left p), h)
OwnStep-left (drained p c e) h = (omega (arith, ap senders_left p), h)
OwnStep-left (finish p q e) h = (omega (arith, close_keeps _ _ e, ap phases_left p), λ k. cc)

OwnRun-left :
    {s t : Stream} (r : OwnRun s t)
    → s.phase ≢ receiving
    → (run_length r + left t ≤ left s) × (t.phase ≢ receiving)
OwnRun-left at_rest h = (omega arith, h)
OwnRun-left (then_step r st) h =
    let (le, k) = OwnRun-left r h in let (lt, k') = OwnStep-left st k in (omega (arith, le, lt), k')

-- After receiving has failed, a call that nobody broadcasts to takes at most 258 more steps of its own:
-- the 256 messages that its channel can hold, the end of the sender and the end of the handler.
pub waiting_ends :
    {s t : Stream} → Reach s → s.phase ≡ waiting → (r : OwnRun s t) → run_length r ≤ 258
waiting_ends {s} reach p r =
    let inv = Reach-Inv reach in
    let (le, k) = OwnRun-left r (λ e. cc) in
    omega (arith, inv.bounded, inv.small, ap phases_left p, le, senders_le s.sending)
