-- ===== src/Pollpoller/Slots.antt =====
-- The index that a handler keeps is the slot of its descriptor, after every operation.
use qg_server.Common.{
  ℕ, zero, suc, ◌-◌, ◌<◌, ◌≡◌, ◌≢◌, ◌⊎◌, refl, sym, ap, ◌∙◌, inl, inr, true, false, List, [], ◌∷◌,
  ◌++◌, Option, none, some, done, Ends, ends, Ends-branch, ◌==◌, ==_iff, arith, get_elem?, set,
  take, length,
}
use qg_server.EventHandler.{event_none, EventHandler}
use qg_server.Pollpoller.{
  PollFd, Pollpoller, map_at, store_at, is_none, no_events, register_handler, remove_handler,
}

-- The descriptor in slot `i` has a handler, which has the descriptor and the index `i`.
pub record Slot (p : Pollpoller) (i : ℕ) (x : PollFd) : Type 0 where
  pub handler : ℕ
  pub found : p.event_handler_map x.fd ≡ some handler
  pub handle : (p.store handler).handle ≡ x.fd
  pub index : (p.store handler).index ≡ some i

pub record IsIndexed (p : Pollpoller) : Type 0 where
  pub slot : (i : ℕ) (x : PollFd) → get_elem? p.fds i ≡ some x → Slot p i x

get_elem?-end :
    (xs : List PollFd) (y : PollFd) (i : ℕ) (x : PollFd)
    → get_elem? (xs ++ y ∷ []) i ≡ some x
    → (get_elem? xs i ≡ some x) ⊎ ((i ≡ length xs) × (y ≡ x))
get_elem?-end [] y zero x e = inr (refl, cc)
get_elem?-end [] y (suc i) x e = cc
get_elem?-end (z ∷ xs) y zero x e = inl e
get_elem?-end (z ∷ xs) y (suc i) x e = elim (get_elem?-end xs y i x e) [
  | inl old ↦ inl old
  | inr (last, same) ↦ inr (ap suc last, same)
]

pub get_elem?-changed :
    (xs : List PollFd) (k : ℕ) (y : PollFd) (i : ℕ) (x : PollFd)
    → get_elem? (set xs k y) i ≡ some x
    → ((i ≡ k) × (y ≡ x)) ⊎ ((i ≢ k) × (get_elem? xs i ≡ some x))
get_elem?-changed [] k y i x e = cc
get_elem?-changed (z ∷ xs) zero y zero x e = inl (refl, cc)
get_elem?-changed (z ∷ xs) zero y (suc i) x e = inr (omega arith, e)
get_elem?-changed (z ∷ xs) (suc k) y zero x e = inr (omega arith, e)
get_elem?-changed (z ∷ xs) (suc k) y (suc i) x e = elim (get_elem?-changed xs k y i x e) [
  | inl (here, same) ↦ inl (ap suc here, same)
  | inr (away, old) ↦ inr ((λ f. away (omega (arith, f))), old)
]

get_elem?-take :
    (n : ℕ) (xs : List PollFd) (i : ℕ) (x : PollFd)
    → get_elem? (take n xs) i ≡ some x
    → (i < n) × (get_elem? xs i ≡ some x)
get_elem?-take zero xs i x e = cc
get_elem?-take (suc n) [] i x e = cc
get_elem?-take (suc n) (y ∷ xs) zero x e = (omega arith, e)
get_elem?-take (suc n) (y ∷ xs) (suc i) x e =
    let (below, old) = get_elem?-take n xs i x e in (omega (arith, below), old)

pub map_at-here : (m : ℕ → Option ℕ) (k : ℕ) (v : Option ℕ) → map_at m k v k ≡ v
map_at-here m k v = let e : (k == k) ≡ true = (==_iff k k).1 refl in rw e

pub map_at-other : (m : ℕ → Option ℕ) (k : ℕ) (v : Option ℕ) (j : ℕ) → j ≢ k → map_at m k v j ≡ m j
map_at-other m k v j apart = let e : (j == k) ≡ false = ground (arith, apart) in rw e

pub store_at-here : (st : ℕ → EventHandler) (h : ℕ) (e : EventHandler) → store_at st h e h ≡ e
store_at-here st h e = let f : (h == h) ≡ true = (==_iff h h).1 refl in rw f

pub store_at-other :
    (st : ℕ → EventHandler) (h : ℕ) (e : EventHandler) (j : ℕ) → j ≢ h → store_at st h e j ≡ st j
store_at-other st h e j apart = let f : (j == h) ≡ false = ground (arith, apart) in rw f

-- A slot whose map entry and handler are as before.
pub keep-Slot :
    (p q : Pollpoller) (i : ℕ) (x : PollFd) (s : Slot p i x)
    → q.event_handler_map x.fd ≡ p.event_handler_map x.fd
    → q.store s.handler ≡ p.store s.handler
    → Slot q i x
keep-Slot p q i x s entry same = record {
  handler = s.handler;
  found = entry ∙ s.found;
  handle = ap (λ (h : EventHandler). h.handle) same ∙ s.handle;
  index = ap (λ (h : EventHandler). h.index) same ∙ s.index;
}

-- In a poller in which every handler keeps the slot of its descriptor as its index, a handler
-- that is not registered, for a descriptor that is not watched, is registered: its index is the
-- slot of its descriptor, and so are those of the others.
pub register_handler-IsIndexed :
    (h : ℕ) (p : Pollpoller)
    → IsIndexed p
    → (p.store h).index ≡ none
    → p.event_handler_map (p.store h).handle ≡ none
    → Ends IsIndexed (register_handler h p)
unfolding register_handler
register_handler-IsIndexed h p v unset free =
    Ends-branch (is_none (p.store h).index)
      (λ e. ends (record {
        slot = λ i x f. elim (get_elem?-end p.fds added i x f) [
          | inl old ↦
              let s = v.slot i x old in
              let found = s.found in
              let index = s.index in
              keep-Slot p after i x s
                (map_at-other p.event_handler_map handler.handle (some h) x.fd (λ same. cc))
                (store_at-other p.store h placed s.handler (λ same. cc))
          | inr (last, same) ↦
              rw (last, sym same)
                (record {
                  handler = h;
                  found = map_at-here p.event_handler_map handler.handle (some h);
                  handle = ap (λ (g : EventHandler). g.handle) (store_at-here p.store h placed);
                  index = ap (λ (g : EventHandler). g.index) (store_at-here p.store h placed);
                })
        ];
      }))
      (λ e. let unset_too : is_none (p.store h).index ≡ true = ap is_none unset in cc)
  where
    handler : EventHandler
    handler = p.store h

    placed : EventHandler
    placed = record handler { index = some (length p.fds) }

    added : PollFd
    added = record { fd = handler.handle; events = handler.ievents; revents = event_none }

    after : Pollpoller
    after = record {
      fds = p.fds ++ added ∷ [];
      event_handler_map = map_at p.event_handler_map handler.handle (some h);
      store = store_at p.store h placed;
    }

pub inside : (xs : List PollFd) (i : ℕ) (x : PollFd) → get_elem? xs i ≡ some x → i < length xs
inside [] i x e = cc
inside (y ∷ xs) zero x e = omega arith
inside (y ∷ xs) (suc i) x e = omega (arith, inside xs i x e)

pub taken : (xs : List PollFd) (i : ℕ) → i < length xs → (x : PollFd) × (get_elem? xs i ≡ some x)
taken [] i h = absurd (omega (arith, h))
taken (x ∷ xs) zero h = (x, refl)
taken (x ∷ xs) (suc i) h = taken xs i (omega (arith, h))

module _ (h index : ℕ) (p : Pollpoller) (x : PollFd) (v : IsIndexed p)
    (is_at : (p.store h).index ≡ some index) (here : get_elem? p.fds index ≡ some x)
    (mine : p.event_handler_map (p.store h).handle ≡ some h) where
  pub end_taken : (back : PollFd) × (get_elem? p.fds (length p.fds - 1) ≡ some back)
  end_taken =
      let below = inside p.fds index x here in taken p.fds (length p.fds - 1) (omega (arith, below))

  abbrev pub back : PollFd
  back = end_taken.0

  abbrev pub back_slot : Slot p (length p.fds - 1) back
  back_slot = v.slot (length p.fds - 1) back end_taken.1

  abbrev pub without : Pollpoller
  without = record {
    fds = take (length p.fds - 1) (set (set p.fds index back) (length p.fds - 1) x);
    event_handler_map = map_at p.event_handler_map (p.store h).handle none;
    store =
        store_at p.store back_slot.handler
          (record (p.store back_slot.handler) { index = some index });
  }

  pub remove_handler-done : no_events x.revents ≡ true → remove_handler h p ≡ done without
  unfolding remove_handler
  remove_handler-done quiet =
      let self : (h == h) ≡ true = (==_iff h h).1 refl in
      rw (is_at, here, mine, self, quiet, end_taken.1, back_slot.found)

  -- A descriptor in another slot than the one removed belongs to another handler.
  apart : (j : ℕ) (y : PollFd) (s : Slot p j y) → j ≢ index → y.fd ≢ (p.store h).handle
  apart j y s away same =
      let found = s.found in
      let at_j = s.index in let one : s.handler ≡ h = cc in let slot : j ≡ index = cc in away slot

  without-slot : (j : ℕ) (y : PollFd) → get_elem? without.fds j ≡ some y → Slot without j y
  without-slot j y e =
      let end = length p.fds - 1 in
      let (below, kept) = get_elem?-take end (set (set p.fds index back) end x) j y e in
      let own = (p.store h).handle in
      let moved = record (p.store back_slot.handler) { index = some index } in
      elim (get_elem?-changed (set p.fds index back) end x j y kept) [
        | inl (at_end, _) ↦ absurd (omega (arith, at_end, below))
        | inr (_, older) ↦ elim (get_elem?-changed p.fds index back j y older) [
          | inl (at_index, same) ↦
              let here_now = store_at-here p.store back_slot.handler moved in
              let away : end ≢ index = omega (arith, at_index, below) in
              rw (at_index, sym same)
                (record {
                  handler = back_slot.handler;
                  found =
                      map_at-other p.event_handler_map own none back.fd
                        (apart end back back_slot away)
                      ∙ back_slot.found;
                  handle = ap (λ (g : EventHandler). g.handle) here_now ∙ back_slot.handle;
                  index = ap (λ (g : EventHandler). g.index) here_now;
                })
          | inr (away, old) ↦
              let s = v.slot j y old in
              let at_j = s.index in
              let at_end = back_slot.index in
              keep-Slot p without j y s
                (map_at-other p.event_handler_map own none y.fd (apart j y s away))
                (store_at-other p.store back_slot.handler moved s.handler
                  (λ same. let clash : j ≡ end = cc in omega (arith, clash, below)))
        ]
      ]

  -- A handler that is registered and has no event pending is removed: the descriptor that was last
  -- takes its slot, the index of its handler is set to this slot, and every other handler keeps its
  -- own.
  pub remove_handler-IsIndexed : no_events x.revents ≡ true → Ends IsIndexed (remove_handler h p)
  remove_handler-IsIndexed quiet =
      rw (remove_handler-done quiet) (ends (record { slot = without-slot }))

  -- The map loses the entry of the handler.
  pub remove_handler-entries :
      no_events x.revents ≡ true
      → Ends
          (λ r. r.event_handler_map ≡ map_at p.event_handler_map (p.store h).handle none)
          (remove_handler h p)
  remove_handler-entries quiet = rw (remove_handler-done quiet) (ends refl)
