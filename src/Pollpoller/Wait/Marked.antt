-- ===== src/Pollpoller/Wait/Marked.antt =====
-- The events that a wait stores in the handlers it returns.
use qg_server.Common.{
  ℕ, suc, ◌≡◌, ◌≢◌, refl, sym, ap, ◌∙◌, inl, inr, Bool-cases, List, [], ◌∷◌, map, Option, none,
  some, done, Ends, ends, Ends-then, Ends-weaken, Ends-branch, arith, if◌then◌else◌, length,
  get_elem?,
}
use qg_server.Common.Int.{ℤ, pos, negsuc, eq_ℤ}
use qg_server.TimeStamp.{TimeStamp}
use qg_server.EventHandler.{Events, EventHandler, set_revents}
use qg_server.Pollpoller.{PollFd, Pollpoller, store_at, no_events}
use qg_server.Pollpoller.Slots.{IsIndexed, store_at-here, store_at-other}
use qg_server.Pollpoller.Wait.{wait_time, mark, collect, wait}
use qg_server.Pollpoller.Wait.Found.{
  pending, none_pending, one_less, AllHandled, handled, mark-handled, length-pending, found_in,
  get_elem?-mark, Polls,
}

module _ (handlers : ℕ → Option ℕ) where
  -- The handlers of descriptors with events, with what was found added to what they had.
  abbrev pub seen_handlers : (ℕ → EventHandler) → List PollFd → List EventHandler
  seen_handlers store [] = []
  seen_handlers store (x ∷ fds) = elim (handlers x.fd) [
    | none ↦ seen_handlers store fds
    | some h ↦ set_revents x.revents (store h) ∷ seen_handlers store fds
  ]

  abbrev pub IsNoHandler : ℕ → List PollFd → Type 0
  IsNoHandler h [] = Unit {0}
  IsNoHandler h (x ∷ fds) = (handlers x.fd ≢ some h) × IsNoHandler h fds

  -- No two descriptors have one handler.
  abbrev pub AllApart : List PollFd → Type 0
  AllApart [] = Unit {0}
  AllApart (x ∷ fds) = ((h : ℕ) → handlers x.fd ≡ some h → IsNoHandler h fds) × AllApart fds

  pub record Marked (fds : List PollFd) (store : ℕ → EventHandler) (r : (ℕ → EventHandler) × List ℕ)
      : Type 0 where
    pub seen : map r.0 r.1 ≡ seen_handlers store (pending fds)
    pub others : (k : ℕ) → IsNoHandler k fds → r.0 k ≡ store k

  -- A handler of none of the descriptors may change.
  seen_handlers-other :
      (h : ℕ) (e : EventHandler) (store : ℕ → EventHandler) (fds : List PollFd)
      → IsNoHandler h fds
      → seen_handlers (store_at store h e) (pending fds) ≡ seen_handlers store (pending fds)
  seen_handlers-other h e store [] v = refl
  seen_handlers-other h e store (x ∷ fds) (apart, v) =
      let rest = seen_handlers-other h e store fds v in
      elim (Bool-cases (no_events x.revents)) [
        | inl quiet ↦ rw quiet rest
        | inr some_event ↦ rw some_event (seen_one (handlers x.fd) refl rest)
      ]
    where
      seen_one :
          (o : Option ℕ)
          → handlers x.fd ≡ o
          → seen_handlers (store_at store h e) (pending fds) ≡ seen_handlers store (pending fds)
          → seen_handlers (store_at store h e) (x ∷ pending fds)
            ≡ seen_handlers store (x ∷ pending fds)
      seen_one none f rest = rw (f, seen_handlers) rest
      seen_one (some k) f rest =
          let away : k ≢ h = λ same. apart (f ∙ ap some same) in
          rw (f, seen_handlers, store_at-other store h e k away)
            (ap (λ (t : List EventHandler). set_revents x.revents (store k) ∷ t) rest)

  -- What follows a descriptor, with `c` left of the return value of poll.
  after-Marked :
      (fds : List PollFd) (c : ℕ) (store : ℕ → EventHandler)
      → c ≡ length (pending fds)
      → Ends (Marked fds store) (collect handlers fds (pos c) store)
      → Ends
          (Marked fds store)
          (if eq_ℤ (pos c) (pos 0) then done (store, []) else collect handlers fds (pos c) store)
  after-Marked fds c store e rest =
      Ends-branch (eq_ℤ (pos c) (pos 0))
        (λ over.
          let none_left = none_pending fds (ground (arith, e, over)) in
          ends (record { seen = rw none_left refl; others = λ k apart. refl }))
        (λ _. rest)

  collect-Marked :
      (fds : List PollFd) (n : ℕ) (store : ℕ → EventHandler)
      → n ≡ length (pending fds)
      → AllHandled handlers fds
      → AllApart fds
      → Ends (Marked fds store) (collect handlers fds (pos n) store)
  unfolding collect
  collect-Marked [] n store e hs apart = ends (record { seen = refl; others = λ k f. refl })
  collect-Marked (x ∷ fds) n store e ((h, at_h), hs) (alone, apart) =
      elim (Bool-cases (no_events x.revents)) [
        | inl quiet ↦
            let fewer : n ≡ length (pending fds) = rw quiet at e in
            let rest = collect-Marked fds n store fewer hs apart in
            rw quiet (
              Ends-weaken (after-Marked fds n store fewer rest)
                λ r m. record { seen = rw quiet m.seen; others = λ k f. m.others k f.1 })
        | inr some_event ↦
            let c = length (pending fds) in
            let one_more : n ≡ suc c = rw some_event at e in
            let marked = set_revents x.revents (store h) in
            let found = store_at store h marked in
            let not_again = alone h at_h in
            let rest = collect-Marked fds c found refl hs apart in
            rw (some_event, at_h, one_less n c one_more)
              (Ends-then (after-Marked fds c found refl rest) λ r m. ends (record {
                seen =
                    let head = m.others h not_again ∙ store_at-here store h marked in
                    let tail = m.seen ∙ seen_handlers-other h marked store fds not_again in
                    rw (some_event, at_h, seen_handlers) (λ i. head i ∷ tail i);
                others = λ k (other, f).
                    let away : k ≢ h = λ same. other (at_h ∙ ap some (sym same)) in
                    m.others k f ∙ store_at-other store h marked k away;
              }))
      ]

  -- Where a handler has one slot, its descriptor is apart from those after it.
  apart_after :
      (h : ℕ) (fds : List PollFd)
      → ((i : ℕ) (x : PollFd) → get_elem? fds i ≡ some x → handlers x.fd ≢ some h)
      → IsNoHandler h fds
  apart_after h [] away = tt
  apart_after h (x ∷ fds) away = (away 0 x refl, apart_after h fds (λ i y e. away (suc i) y e))

  one_slot-AllApart :
      (fds : List PollFd)
      → ((h i j : ℕ) (x y : PollFd)
          → get_elem? fds i ≡ some x
          → get_elem? fds j ≡ some y
          → handlers x.fd ≡ some h
          → handlers y.fd ≡ some h
          → i ≡ j)
      → AllApart fds
  one_slot-AllApart [] one = tt
  one_slot-AllApart (x ∷ fds) one = (
    λ h at_h.
        apart_after h fds (λ i y e at_y. ground (arith, one h 0 (suc i) x y refl e at_h at_y)),
    one_slot-AllApart fds
        (λ h i j y z e f at_y at_z. omega (arith, one h (suc i) (suc j) y z e f at_y at_z)),
  )

-- The handler of a descriptor keeps its slot.
index_of :
    (p : Pollpoller)
    → IsIndexed p
    → (es : List Events) (h k : ℕ) (z : PollFd) → get_elem? (mark es p.fds) k ≡ some z
    → p.event_handler_map z.fd ≡ some h
    → (p.store h).index ≡ some k
index_of p v es h k z e at_z =
    let (y, old, same) = get_elem?-mark es p.fds k z e in
    let s = v.slot k y old in
    let one : some s.handler ≡ some h = sym s.found ∙ ap p.event_handler_map same ∙ at_z in
    let own : s.handler ≡ h = cc in ap (λ (g : ℕ). (p.store g).index) (sym own) ∙ s.index

one_handler_slot :
    (p : Pollpoller)
    → IsIndexed p
    → (es : List Events) (h i j : ℕ) (x y : PollFd) → get_elem? (mark es p.fds) i ≡ some x
    → get_elem? (mark es p.fds) j ≡ some y
    → p.event_handler_map x.fd ≡ some h
    → p.event_handler_map y.fd ≡ some h
    → i ≡ j
one_handler_slot p v es h i j x y e f at_x at_y =
    let both : some i ≡ some j =
      sym (index_of p v es h i x e at_x) ∙ index_of p v es h j y f at_y in
    cc

-- In a poller in which every handler keeps the slot of its descriptor as its index, and for a poll
-- that does not fail: the handlers that a wait for all descriptors returns have, each of them, the
-- events of its own descriptor, beside those that it had before.
pub wait-Marked :
    (poll : List PollFd → ℕ → ℤ → ℤ × List Events) (time_stamp : TimeStamp) (p : Pollpoller)
    → IsIndexed p
    → Polls poll p.fds (wait_time time_stamp)
    → Ends
        (λ r.
          map r.0.store r.1
          ≡ seen_handlers p.event_handler_map p.store
              (pending (mark (poll p.fds (length p.fds) (wait_time time_stamp)).1 p.fds)))
        (wait poll (negsuc 0) time_stamp p)
unfolding wait
wait-Marked poll time_stamp p v law =
    let called = poll p.fds (length p.fds) (wait_time time_stamp) in
    let marked = mark called.1 p.fds in
    let count = length-pending called.1 p.fds law.stored in
    let apart = one_slot-AllApart p.event_handler_map marked (one_handler_slot p v called.1) in
    rw law.counted (
      Ends-then
        (collect-Marked p.event_handler_map marked (found_in called.1) p.store (sym count)
          (handled p.event_handler_map marked (mark-handled p v called.1)) apart)
        λ r m. ends m.seen)
