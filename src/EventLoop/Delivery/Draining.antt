-- ===== src/EventLoop/Delivery/Draining.antt =====
-- What a loop does by itself when no thread adds a function.
use mathlib.Core.List.{append-nil, append_assoc}
use qg_server.Common.{ℕ, ◌-◌, ◌<◌, ◌≡◌, refl, sym, ◌∙◌, inl, inr, List, [], ◌∷◌, ◌++◌, arith}
use qg_server.EventLoop.{
  waiting, handling, running, EventLoop, new_event_loop, add_functor, LoopStep, Step, wake, pop_all,
  run, add_next, finish, Reached, here, next,
}
use qg_server.EventLoop.Delivery.{IsAwake-in, Reached-IsLive}

Reached-trans :
    {R : EventLoop → EventLoop → Type 0} {k l m : EventLoop}
    → Reached R k l
    → Reached R l m
    → Reached R k m
Reached-trans first here = first
Reached-trans first (next rest s) = next (Reached-trans first rest) s

-- What the functions add, in order.
abbrev pub all_added : (ℕ → List ℕ) → List ℕ → List ℕ
all_added adds [] = []
all_added adds (f ∷ fs) = adds f ++ all_added adds fs

-- The loop has run `fs`, and waits again, with `left` pending.
pub record Drained (R : EventLoop → EventLoop → Type 0) (l : EventLoop) (fs left : List ℕ)
    : Type 0 where
  pub last : EventLoop
  pub reached : Reached R l last
  pub waits : last.phase ≡ waiting
  pub ran : last.ran ≡ l.ran ++ fs
  pub pending : last.pending_functors ≡ left

module _ (capacity : ℕ) (adds : ℕ → List ℕ) where
  abbrev By : EventLoop → EventLoop → Type 0
  By = LoopStep capacity adds

  running-Drained :
      (fs gs : List ℕ) (l : EventLoop)
      → l.phase ≡ running gs fs
      → Drained By l fs (l.pending_functors ++ (gs ++ all_added adds fs))
  running-Drained fs (g ∷ gs) l e =
      let rest =
        running-Drained fs gs (add_functor capacity g (record l { phase = running gs fs })) refl in
      record {
        last = rest.last;
        reached = Reached-trans (next here (add_next l g gs fs e)) rest.reached;
        waits = rest.waits;
        ran = rest.ran;
        pending = rest.pending ∙ append_assoc l.pending_functors (g ∷ []) (gs ++ all_added adds fs);
      }
  running-Drained (f ∷ fs) [] l e =
      let rest =
        running-Drained fs (adds f)
          (record l { phase = running (adds f) fs; ran = l.ran ++ f ∷ [] }) refl in
      record {
        last = rest.last;
        reached = Reached-trans (next here (run l f fs e)) rest.reached;
        waits = rest.waits;
        ran = rest.ran ∙ append_assoc l.ran (f ∷ []) fs;
        pending = rest.pending;
      }
  running-Drained [] [] l e = record {
    last = record l { phase = waiting };
    reached = next here (finish l e);
    waits = refl;
    ran = sym (append-nil l.ran);
    pending = sym (append-nil l.pending_functors);
  }

  idle-Drained :
      (l : EventLoop) (fs : List ℕ)
      → l.phase ≡ waiting
      → fs ≡ []
      → l.pending_functors ≡ fs
      → Drained By l fs (all_added adds fs)
  idle-Drained l [] e none_left same = record {
    last = l;
    reached = here;
    waits = e;
    ran = sym (append-nil l.ran);
    pending = same;
  }
  idle-Drained l (f ∷ fs) e none_left same = cc

  waiting-Drained :
      (l : EventLoop)
      → l.phase ≡ waiting
      → 0 < l.pipe
      → Drained By l l.pending_functors (all_added adds l.pending_functors)
  waiting-Drained l e h =
      let woken = record l { phase = handling; pipe = l.pipe - 1 } in
      let taken = record woken { phase = running [] l.pending_functors; pending_functors = [] } in
      let rest = running-Drained l.pending_functors [] taken refl in
      record {
        last = rest.last;
        reached = Reached-trans (next (next here (wake l e h)) (pop_all woken refl)) rest.reached;
        waits = rest.waits;
        ran = rest.ran;
        pending = rest.pending;
      }

  -- For a pipe that has room for a byte: from any state that the threads lead to, in which the loop
  -- waits in poll and no thread is between its push and its write, and where no other event comes,
  -- no timer and no other thread, so that poll returns for a byte in the pipe alone: the loop has
  -- steps after which it waits again, has run the functions that were pending, once each and in
  -- order, and what they added is pending.
  pub Reached-Drained :
      (l : EventLoop)
      → 0 < capacity
      → Reached (Step capacity adds) new_event_loop l
      → l.phase ≡ waiting
      → l.owed ≡ 0
      → Drained By l l.pending_functors (all_added adds l.pending_functors)
  Reached-Drained l room r e none_owed =
      elim (IsAwake-in waiting l (Reached-IsLive capacity room adds l r) e) [
        | inl none_pending ↦ idle-Drained l l.pending_functors e none_pending refl
        | inr some_byte ↦ waiting-Drained l e (omega (arith, some_byte, none_owed))
      ]
