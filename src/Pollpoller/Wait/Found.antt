-- ===== src/Pollpoller/Wait/Found.antt =====
-- What `Pollpoller::Wait` returns, for a poll that does what it documents.
use qg_server.Common.{
  ℕ, zero, suc, ◌≡◌, refl, sym, ap, ◌∙◌, inl, inr, Bool-cases, List, [], ◌∷◌, map, Option, some,
  done, Ends, ends, Ends-then, Ends-weaken, Ends-branch, ◌==◌, ==_iff, arith, if◌then◌else◌, length,
  get_elem?,
}
use qg_server.Common.Int.{ℤ, pos, negsuc, ◌-ℤ◌, eq_ℤ}
use qg_server.TimeStamp.{TimeStamp}
use qg_server.EventHandler.{Events, EventHandler, set_revents}
use qg_server.Pollpoller.{PollFd, Pollpoller, store_at, no_events}
use qg_server.Pollpoller.Slots.{IsIndexed}
use qg_server.Pollpoller.Wait.{wait_time, mark, collect, wait}

-- The descriptors with events, in order.
abbrev pub pending : List PollFd → List PollFd
pending [] = []
pending (x ∷ fds) = if no_events x.revents then pending fds else x ∷ pending fds

abbrev pub found_in : List Events → ℕ
found_in [] = 0
found_in (e ∷ es) = if no_events e then found_in es else suc (found_in es)

abbrev pub AllHandled : (ℕ → Option ℕ) → List PollFd → Type 0
AllHandled handlers [] = Unit {0}
AllHandled handlers (x ∷ fds) = ((h : ℕ) × (handlers x.fd ≡ some h)) × AllHandled handlers fds

-- The handlers of the descriptors with events, and what all handlers keep.
record Collected (handlers : ℕ → Option ℕ) (fds : List PollFd) (store : ℕ → EventHandler)
    (r : (ℕ → EventHandler) × List ℕ) : Type 0 where
  found : map some r.1 ≡ map (λ (x : PollFd). handlers x.fd) (pending fds)
  handle : (h : ℕ) → (r.0 h).handle ≡ (store h).handle
  index : (h : ℕ) → (r.0 h).index ≡ (store h).index

length_zero : (xs : List PollFd) → length xs ≡ 0 → xs ≡ []
length_zero [] e = refl
length_zero (x ∷ xs) e = absurd (omega (arith, e))

pub none_pending : (fds : List PollFd) → length (pending fds) ≡ 0 → pending fds ≡ []
none_pending fds e = length_zero (pending fds) e

pub one_less : (n c : ℕ) → n ≡ suc c → (pos n -ℤ pos 1) ≡ pos c
unfolding ◌-ℤ◌
one_less n c e = ground arith

set_revents_keeps :
    (store : ℕ → EventHandler) (h : ℕ) (e : Events) (k : ℕ)
    → ((store_at store h (set_revents e (store h)) k).handle ≡ (store k).handle)
      × ((store_at store h (set_revents e (store h)) k).index ≡ (store k).index)
set_revents_keeps store h e k = elim (Bool-cases (k == h)) [
  | inl same ↦ let one : k ≡ h = (==_iff k h).0 same in rw (same, one) (refl, refl)
  | inr other ↦ rw other (refl, refl)
]

-- What follows a descriptor, with `c` left of the return value of poll.
next_turn :
    (handlers : ℕ → Option ℕ) (fds : List PollFd) (c : ℕ) (store : ℕ → EventHandler)
    → c ≡ length (pending fds)
    → Ends (Collected handlers fds store) (collect handlers fds (pos c) store)
    → Ends
        (Collected handlers fds store)
        (if eq_ℤ (pos c) (pos 0) then done (store, []) else collect handlers fds (pos c) store)
next_turn handlers fds c store e rest =
    Ends-branch (eq_ℤ (pos c) (pos 0))
      (λ over.
        let none_left = none_pending fds (ground (arith, e, over)) in
        ends (record {
          found = sym (ap (map (λ (x : PollFd). handlers x.fd)) none_left);
          handle = λ k. refl;
          index = λ k. refl;
        }))
      (λ _. rest)

collect-Collected :
    (handlers : ℕ → Option ℕ) (fds : List PollFd) (n : ℕ) (store : ℕ → EventHandler)
    → n ≡ length (pending fds)
    → AllHandled handlers fds
    → Ends (Collected handlers fds store) (collect handlers fds (pos n) store)
unfolding collect
collect-Collected handlers [] n store e h =
    ends (record { found = refl; handle = λ k. refl; index = λ k. refl })
collect-Collected handlers (x ∷ fds) n store e ((h, at_h), hs) =
    elim (Bool-cases (no_events x.revents)) [
      | inl quiet ↦
          let fewer : n ≡ length (pending fds) = rw quiet at e in
          let rest = collect-Collected handlers fds n store fewer hs in
          rw quiet (
            Ends-weaken (next_turn handlers fds n store fewer rest)
              λ r c. record { found = rw quiet c.found; handle = c.handle; index = c.index })
      | inr some_event ↦
          let c = length (pending fds) in
          let one_more : n ≡ suc c = rw some_event at e in
          let found = store_at store h (set_revents x.revents (store h)) in
          let rest = collect-Collected handlers fds c found refl hs in
          rw (some_event, at_h, one_less n c one_more)
            (Ends-then (next_turn handlers fds c found refl rest) λ r c. ends (record {
              found = rw (some_event, at_h) (ap (λ (t : List (Option ℕ)). some h ∷ t) c.found);
              handle = λ k. c.handle k ∙ (set_revents_keeps store h x.revents k).0;
              index = λ k. c.index k ∙ (set_revents_keeps store h x.revents k).1;
            }))
    ]

-- The descriptors that are marked are those of before.
pub get_elem?-mark :
    (es : List Events) (fds : List PollFd) (i : ℕ) (x : PollFd)
    → get_elem? (mark es fds) i ≡ some x
    → (y : PollFd) × (get_elem? fds i ≡ some y) × (y.fd ≡ x.fd)
get_elem?-mark [] fds i x e = (x, e, refl)
get_elem?-mark (a ∷ es) [] i x e = cc
get_elem?-mark (a ∷ es) (y ∷ fds) zero x e =
    let same : record y { revents = a } ≡ x = cc in (y, refl, ap (λ (z : PollFd). z.fd) same)
get_elem?-mark (a ∷ es) (y ∷ fds) (suc i) x e = get_elem?-mark es fds i x e

pub handled :
    (handlers : ℕ → Option ℕ) (fds : List PollFd)
    → ((i : ℕ) (x : PollFd) → get_elem? fds i ≡ some x → (h : ℕ) × (handlers x.fd ≡ some h))
    → AllHandled handlers fds
handled handlers [] all = tt
handled handlers (x ∷ fds) all = (all 0 x refl, handled handlers fds (λ i y e. all (suc i) y e))

pub length-pending :
    (es : List Events) (fds : List PollFd)
    → length es ≡ length fds
    → length (pending (mark es fds)) ≡ found_in es
length-pending [] [] e = refl
length-pending [] (x ∷ fds) e = absurd (omega (arith, e))
length-pending (a ∷ es) [] e = absurd (omega (arith, e))
length-pending (a ∷ es) (x ∷ fds) e =
    let rest = length-pending es fds (omega (arith, e)) in
    elim (Bool-cases (no_events a)) [
      | inl quiet ↦ rw quiet rest
      | inr some_event ↦ rw some_event (ap suc rest)
    ]

pub mark-handled :
    (p : Pollpoller)
    → IsIndexed p
    → (es : List Events) (i : ℕ) (x : PollFd) → get_elem? (mark es p.fds) i ≡ some x
    → (h : ℕ) × (p.event_handler_map x.fd ≡ some h)
mark-handled p v es i x e =
    let (y, old, same) = get_elem?-mark es p.fds i x e in
    let s = v.slot i y old in (s.handler, ap p.event_handler_map (sym same) ∙ s.found)

-- What poll documents of a call that does not fail: it stores the events of each descriptor that
-- it looks at, and returns how many of them have any.
pub record Polls (poll : List PollFd → ℕ → ℤ → ℤ × List Events) (fds : List PollFd) (timeout : ℤ)
    : Type 0 where
  pub stored : length (poll fds (length fds) timeout).1 ≡ length fds
  pub counted : (poll fds (length fds) timeout).0 ≡ pos (found_in (poll fds (length fds) timeout).1)

-- What Wait gives.
pub record Waited (p : Pollpoller) (events : List Events) (r : Pollpoller × List ℕ) : Type 0 where
  pub found :
      map some r.1 ≡ map (λ (x : PollFd). p.event_handler_map x.fd) (pending (mark events p.fds))
  pub indexed : IsIndexed r.0
  pub entries : r.0.event_handler_map ≡ p.event_handler_map

-- In a poller in which every handler keeps the slot of its descriptor as its index, and for a poll
-- that does not fail, a wait for all descriptors ends, returns the handlers of exactly those that
-- have events, in the order of the descriptors, and leaves the indices right and the map as it was.
pub wait-Waited :
    (poll : List PollFd → ℕ → ℤ → ℤ × List Events) (time_stamp : TimeStamp) (p : Pollpoller)
    → IsIndexed p
    → Polls poll p.fds (wait_time time_stamp)
    → Ends
        (Waited p (poll p.fds (length p.fds) (wait_time time_stamp)).1)
        (wait poll (negsuc 0) time_stamp p)
unfolding wait
wait-Waited poll time_stamp p v law =
    let called = poll p.fds (length p.fds) (wait_time time_stamp) in
    let marked = mark called.1 p.fds in
    let count = length-pending called.1 p.fds law.stored in
    rw law.counted (
      Ends-then
        (collect-Collected p.event_handler_map marked (found_in called.1) p.store (sym count)
          (handled p.event_handler_map marked (mark-handled p v called.1)))
        λ r c. ends (record {
          found = c.found;
          entries = refl;
          indexed = record {
            slot = λ i x e.
                let (y, old, same) = get_elem?-mark called.1 p.fds i x e in
                let s = v.slot i y old in
                record {
                  handler = s.handler;
                  found = ap p.event_handler_map (sym same) ∙ s.found;
                  handle = c.handle s.handler ∙ s.handle ∙ same;
                  index = c.index s.handler ∙ s.index;
                };
          };
        }))
