-- ===== src/Witnesses/Loops.antt =====
-- A loop over two rules that count to two.
use computer_network_labs.Base.{
  ltb, ◌==◌, ℕ, suc, ◌+◌, ◌≡◌, refl, false, Option, some, List, [], ◌∷◌,
}
use computer_network_labs.EventLoop.{
  is_incoming, is_ready, asks, service_count, is_over, push, prepare, keep, is_busy, serve,
  finished, after_poll, wait_next_event, FileDescriptor, Rule, Direction, incoming, outgoing,
  Answer, failing, polled, success, threw,
}
use computer_network_labs.EventLoop.Round.{NoneOver, events_of}
use computer_network_labs.EventLoop.Wait.{Outcome, wait_next_event-Outcome, wait_next_event-failing}

abbrev descriptor : FileDescriptor ℕ
descriptor = record {
  eof = λ s. false;
  closed = λ s. false;
  read_count = λ s. s;
  write_count = λ s. s;
}

abbrev counting : Direction → Rule ℕ
counting d = record {
  fd = descriptor;
  direction = d;
  callback = λ s. some (suc s);
  interest = λ s. ltb s 2;
  cancel = λ s. some (s + 10);
}

-- A callback that does not use its descriptor.
abbrev idle : Rule ℕ
idle = record (counting incoming) { callback = λ s. some s }

abbrev two : List (Rule ℕ)
two = counting incoming ∷ counting outgoing ∷ []

-- The first descriptor can be read, the second has been hung up.
abbrev answer : List (Option Direction) → Answer
answer events =
    polled (λ i. record { readable = i == 0; writable = false; broken = false; hung_up = i == 1 })

wait_next_event-two : wait_next_event answer two 0 ≡ success (counting incoming ∷ []) 11
unfolding wait_next_event prepare push is_over is_incoming after_poll finished serve is_ready asks
    keep is_busy service_count
wait_next_event-two = refl

wait_next_event-idle : wait_next_event answer (idle ∷ []) 0 ≡ threw
unfolding wait_next_event prepare push is_over is_incoming after_poll finished serve is_ready asks
    keep is_busy service_count
wait_next_event-idle = refl

two-NoneOver : NoneOver two 0
unfolding is_over is_incoming
two-NoneOver = (refl, (refl, tt))

wait_next_event-Outcome_example :
    Outcome (answer (events_of two 0)) two 0 (wait_next_event answer two 0)
wait_next_event-Outcome_example = wait_next_event-Outcome answer two 0 two-NoneOver

wait_next_event-failing_example : wait_next_event (λ events. failing) two 0 ≡ success two 0
wait_next_event-failing_example =
    wait_next_event-failing (λ events. failing) two 0 two-NoneOver refl (λ events. refl)
