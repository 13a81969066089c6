-- ===== src/EventLoop/Delivery.antt =====
-- The functions that are added to a loop are run once each, in order, and the loop does not sleep
-- on one.
pub mod Draining
use mathlib.Core.List.{append-nil, append_assoc}
use mathlib.Core.Path.{subst}
use qg_server.Common.{
  ℕ, ◌+◌, ◌<◌, ◌≡◌, ◌⊎◌, refl, sym, ap, ◌∙◌, inl, inr, List, [], ◌∷◌, ◌++◌, arith, ltb,
  if◌then◌else◌,
}
use qg_server.EventLoop.{
  Phase, waiting, handling, running, EventLoop, new_event_loop, push, wake_up, add_functor,
  LoopStep, Step, wake, other, add_own, pop_all, run, add_next, finish, loops, pushes, writes,
  Reached, here, next,
}

-- The functions that handlePendingFunctors has taken and not yet run.
abbrev pub in_hand : Phase → List ℕ
in_hand waiting = []
in_hand handling = []
in_hand (running gs fs) = fs

-- Nothing is to be run, or a byte is in the pipe or is owed, except on the way to
-- handlePendingFunctors.
abbrev pub IsAwake : Phase → List ℕ → ℕ → Type 0
IsAwake handling fs n = Unit {0}
IsAwake _ fs n = (fs ≡ []) ⊎ (0 < n)

pub record IsLive (l : EventLoop) : Type 0 where
  pub delivered : l.ran ++ (in_hand l.phase ++ l.pending_functors) ≡ l.added
  pub awake : IsAwake l.phase l.pending_functors (l.pipe + l.owed)

IsAwake-byte : (p : Phase) (fs : List ℕ) (n : ℕ) → 0 < n → IsAwake p fs n
IsAwake-byte waiting fs n h = inr h
IsAwake-byte handling fs n h = tt
IsAwake-byte (running gs hs) fs n h = inr h

-- What is delivered, by the functions in hand.
by_hand :
    (l : EventLoop) (hand : List ℕ)
    → IsLive l
    → in_hand l.phase ≡ hand
    → l.ran ++ (hand ++ l.pending_functors) ≡ l.added
by_hand l hand v e = sym (ap (λ (t : List ℕ). l.ran ++ (t ++ l.pending_functors)) e) ∙ v.delivered

pub IsAwake-in :
    (p : Phase) (l : EventLoop)
    → IsLive l
    → l.phase ≡ p
    → IsAwake p l.pending_functors (l.pipe + l.owed)
IsAwake-in p l v e = subst (λ (q : Phase). IsAwake q l.pending_functors (l.pipe + l.owed)) e v.awake

push-delivered :
    (f : ℕ) (l : EventLoop)
    → l.ran ++ (in_hand l.phase ++ l.pending_functors) ≡ l.added
    → l.ran ++ (in_hand l.phase ++ (l.pending_functors ++ f ∷ [])) ≡ l.added ++ f ∷ []
push-delivered f l delivered =
    let hand = in_hand l.phase in
    let last = f ∷ [] in
    ap (λ (t : List ℕ). l.ran ++ t) (sym (append_assoc hand l.pending_functors last))
    ∙ sym (append_assoc l.ran (hand ++ l.pending_functors) last)
    ∙ ap (λ (t : List ℕ). t ++ last) delivered

module _ (capacity : ℕ) (room : 0 < capacity) where
  -- After a write there is a byte.
  byte : (n : ℕ) → 0 < (if ltb n capacity then n + 1 else n)
  byte n = ground (arith, room)

  add_functor-IsLive :
      (f : ℕ) (l : EventLoop)
      → l.ran ++ (in_hand l.phase ++ l.pending_functors) ≡ l.added
      → IsLive (add_functor capacity f l)
  add_functor-IsLive f l delivered = record {
    delivered = push-delivered f l delivered;
    awake =
        let some_byte = byte l.pipe in
        IsAwake-byte l.phase (l.pending_functors ++ f ∷ []) _ (omega (arith, some_byte));
  }

  LoopStep-IsLive :
      (adds : ℕ → List ℕ) {l m : EventLoop} → LoopStep capacity adds l m → IsLive l → IsLive m
  LoopStep-IsLive adds (wake l e h) v = record {
    delivered = by_hand l [] v (ap in_hand e);
    awake = tt;
  }
  LoopStep-IsLive adds (pop_all l e) v = record {
    delivered = rw append-nil (by_hand l [] v (ap in_hand e));
    awake = inl refl;
  }
  LoopStep-IsLive adds (run l f fs e) v = record {
    delivered =
        append_assoc l.ran (f ∷ []) (fs ++ l.pending_functors)
        ∙ by_hand l (f ∷ fs) v (ap in_hand e);
    awake = IsAwake-in (running [] (f ∷ fs)) l v e;
  }
  LoopStep-IsLive adds (add_next l g gs fs e) v =
      add_functor-IsLive g (record l { phase = running gs fs }) (by_hand l fs v (ap in_hand e))
  LoopStep-IsLive adds (finish l e) v = record {
    delivered = by_hand l [] v (ap in_hand e);
    awake = IsAwake-in (running [] []) l v e;
  }

  Step-IsLive : (adds : ℕ → List ℕ) {l m : EventLoop} → Step capacity adds l m → IsLive l → IsLive m
  Step-IsLive adds (loops s) v = LoopStep-IsLive adds s v
  Step-IsLive adds (other l e) v = record { delivered = by_hand l [] v (ap in_hand e); awake = tt }
  Step-IsLive adds (add_own f l e) v = add_functor-IsLive f l v.delivered
  Step-IsLive adds (pushes f l) v = record {
    delivered = push-delivered f l v.delivered;
    awake = IsAwake-byte l.phase (l.pending_functors ++ f ∷ []) _ (omega arith);
  }
  Step-IsLive adds (writes l h) v = record {
    delivered = v.delivered;
    awake =
        let some_byte = byte l.pipe in
        IsAwake-byte l.phase l.pending_functors _ (omega (arith, some_byte));
  }

  -- For a pipe that has room for a byte: whatever the threads do, in whatever order, also between
  -- the push and the write of another, the functions run so far, those in hand and those pending
  -- are all the functions added, in the order in which they were pushed, and when the loop waits in
  -- poll while a function is pending, a byte that wakes it is in the pipe, or a thread is about to
  -- write one.
  pub Reached-IsLive :
      (adds : ℕ → List ℕ) (l : EventLoop) → Reached (Step capacity adds) new_event_loop l → IsLive l
  Reached-IsLive adds l here = record { delivered = refl; awake = inl refl }
  Reached-IsLive adds l (next {l = k} r s) = Step-IsLive adds s (Reached-IsLive adds k r)
