-- ===== src/EventLoop/Turn/Tests.antt =====
-- A turn of a loop with two timers, one handler and two functions.
use qg_server.Common.{
  ℕ, zero, suc, ◌≡◌, refl, sym, ap, [], ◌∷◌, ◌++◌, done, Ends, ends, arith, length, replicate, some,
  get_elem?,
}
use qg_server.Common.Int.{pos}
use mathlib.Core.List.{append-nil}
use qg_server.EventHandler.{event_none, event_read}
use qg_server.Pollpoller.Wait.Found.{found_in}
use qg_server.TimerQueue.Tests.{two_timers, two_timers-IsValid, at_eight, makes_none, calm}
use qg_server.TimerQueue.Work.{total}
use qg_server.EventLoop.Registry.Tests.{one_handler, one_handler-Watches}
use qg_server.Pollpoller.{PollFd}
use qg_server.Pollpoller.Slots.{Slot}
use qg_server.Pollpoller.Tests.{one_watched}
use qg_server.EventLoop.Registry.{Registry}
use qg_server.EventLoop.Turn.{Loop, World, turn}
use qg_server.EventLoop.Turn.Alive.{IsSound, Behaves, Ran, turn_runs}
use qg_server.EventLoop.Turn.Delivers.{Leaves, Delivered, turn_delivers}

-- Nothing is found, and the function 3 adds the function 4.
abbrev quiet : World
quiet = record {
  clock = at_eight;
  made = makes_none;
  poll = λ fds n timeout. (pos 0, replicate n event_none);
  call_back = λ cb l. done l;
  functor = λ f l. done (record l { pending_functors = l.pending_functors ++ 4 ∷ [] });
}

length-replicate : (n : ℕ) → length (replicate n event_none) ≡ n
length-replicate zero = refl
length-replicate (suc n) = ap suc (length-replicate n)

found_in-none : (n : ℕ) → found_in (replicate n event_none) ≡ 0
found_in-none zero = refl
found_in-none (suc n) = found_in-none n

quiet-Behaves : Behaves quiet
quiet-Behaves = record {
  call_back = λ cb l s. ends (record {
    sound = s;
    added = [];
    pending = sym (append-nil l.pending_functors);
    ran = refl;
    fired = refl;
  });
  functor = λ f l s. ends (record {
    sound = record { timers = s.timers; watches = s.watches };
    added = 4 ∷ [];
    pending = refl;
    ran = refl;
    fired = refl;
  });
  poll = λ fds timeout. record {
    stored = length-replicate (length fds);
    counted = ap pos (sym (found_in-none (length fds)));
  };
}

abbrev start : Loop
start = record {
  timer_queue = two_timers;
  registry = one_handler;
  pending_functors = 2 ∷ 3 ∷ [];
  called = [];
  ran = [];
}

turn_runs_example : Ends (Ran quiet 100 (pos 8) start) (turn quiet 100 start)
unfolding total
turn_runs_example =
    turn_runs quiet quiet-Behaves (pos 8) 0 calm 100 start
      (record { timers = two_timers-IsValid; watches = one_handler-Watches }) (omega arith)
      (omega arith)

-- Every descriptor can be read, and the callbacks do nothing.
abbrev busy : World
busy = record {
  clock = at_eight;
  made = makes_none;
  poll = λ fds n timeout. (pos n, replicate n event_read);
  call_back = λ cb l. done l;
  functor = λ f l. done l;
}

length-replicate_read : (n : ℕ) → length (replicate n event_read) ≡ n
length-replicate_read zero = refl
length-replicate_read (suc n) = ap suc (length-replicate_read n)

found_in-all : (n : ℕ) → found_in (replicate n event_read) ≡ n
found_in-all zero = refl
found_in-all (suc n) = ap suc (found_in-all n)

busy-Leaves : Leaves busy
busy-Leaves = record {
  call_back = λ cb l. ends (record { handlers = λ h. refl; called = refl });
  functor = λ f l. ends (record { handlers = λ h. refl; called = refl });
  poll = λ fds timeout. record {
    stored = length-replicate_read (length fds);
    counted = ap pos (sym (found_in-all (length fds)));
  };
}

-- The handler of the descriptor 4 has the callback 6 for reading.
abbrev answering : Registry
answering = record one_handler {
  poller = record one_watched {
    store = λ h. record (one_watched.store h) { read_call_back = some 6 };
  };
}

answering_slot :
    (i : ℕ) (x : PollFd) → get_elem? answering.poller.fds i ≡ some x → Slot answering.poller i x
answering_slot i x e =
    let s = one_handler-Watches.indexed.slot i x e in
    record { handler = s.handler; found = s.found; handle = s.handle; index = s.index }

abbrev listening : Loop
listening = record start { registry = answering }

listening-IsSound : IsSound listening
listening-IsSound = record {
  timers = two_timers-IsValid;
  watches = record { indexed = record { slot = answering_slot }; same = λ fd. refl };
}

turn_delivers_example : Ends (Delivered busy listening) (turn busy 100 listening)
unfolding total
turn_delivers_example =
    turn_delivers busy busy-Leaves (pos 8) 0 calm 100 listening listening-IsSound (omega arith)
      (omega arith)
