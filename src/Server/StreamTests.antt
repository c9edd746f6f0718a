-- ===== src/Server/StreamTests.antt =====
-- A client that connects to a quiet room and goes away.
use chat_service.Chan.{try_send}
use chat_service.Proto.{zero_server_message}
use chat_service.Server.Stream.Drain.{then_step, OwnRun, waiting_ends, at_rest, run_length}
use chat_service.Prelude.{[], ◌∷◌, false, ◌≤◌, refl}
use chat_service.Server.Stream.{
  send_fails, broadcast, recv_fails, own, start, waiting_is_stuck, Reach-Inv, next, waiting,
  OwnStep, Inv, Reach, opened, Stream,
}

abbrev gone : Stream
gone = record opened { phase = waiting }

Reach-gone : Reach gone
Reach-gone = next start (own (recv_fails refl))

Reach-Inv_example : Inv gone
Reach-Inv_example = Reach-Inv Reach-gone

waiting_is_stuck_example : ¬ OwnStep gone opened
waiting_is_stuck_example = waiting_is_stuck Reach-gone refl refl refl

-- A message comes before the client goes away, and its sender fails on it.
abbrev spoken_to : Stream
spoken_to = record opened {
  channel = record (opened.channel) { buffer = zero_server_message ∷ [] };
}

abbrev gone_after : Stream
gone_after = record spoken_to { phase = waiting }

abbrev failed_send : Stream
failed_send = record gone { sending = false }

Reach-gone_after : Reach gone_after
unfolding try_send
Reach-gone_after =
    next (next start (broadcast zero_server_message (λ e. cc) refl)) (own (recv_fails refl))

abbrev one_step : OwnRun gone_after failed_send
one_step = then_step at_rest (send_fails refl refl)

waiting_ends_example : run_length one_step ≤ 258
waiting_ends_example = waiting_ends Reach-gone_after refl one_step
