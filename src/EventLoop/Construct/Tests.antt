-- ===== src/EventLoop/Construct/Tests.antt =====
-- A loop that is made while another handler exists, and one that comes to its end.
use qg_server.Common.{
  ◌≡◌, refl, true, [], ◌∷◌, none, fault, arith, inl, inr, Bool-cases, ◌==◌, ℕ, some,
}
use qg_server.EventHandler.{event_read, new_event_handler, EventHandler}
use qg_server.EventLoop.Registry.Tests.{one_handler}
use qg_server.EventLoop.Construct.{Answers, Waker, destroy_event_loop, is_among}
use qg_server.EventLoop.Construct.Ended.{destroy_event_loop_faults}

abbrev answers : Answers
answers = record { o_nonblock = 11; read_flags = none; write_flags = none }

abbrev waker : Waker
waker = record { event_handler = 0; read_end = 4; write_end = 5; handle_read = 30 }

abbrev others : ℕ → EventHandler
others h = new_event_handler 9 event_read

only_zero : (fd h : ℕ) → one_handler.handler_map fd ≡ some h → is_among h (0 ∷ []) ≡ true
only_zero fd h e = elim (Bool-cases (fd == 4)) [
  | inl four ↦ ground (arith, e, four)
  | inr other ↦ ground (arith, e, other)
]

destroy_event_loop_faults_example : destroy_event_loop waker (0 ∷ []) one_handler ≡ fault
destroy_event_loop_faults_example =
    destroy_event_loop_faults waker (0 ∷ []) one_handler only_zero refl
