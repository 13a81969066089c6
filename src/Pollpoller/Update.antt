-- ===== src/Pollpoller/Update.antt =====
-- `Pollpoller::updateHandler` for a handler that is registered.
use qg_server.Common.{
  ℕ, zero, suc, ◌≡◌, ◌≢◌, refl, sym, ap, inl, inr, List, [], ◌∷◌, some, done, Ends, ends, get_elem?,
  set,
}
use qg_server.EventHandler.{event_none}
use qg_server.Pollpoller.{PollFd, Pollpoller, update_handler}
use qg_server.Pollpoller.Slots.{Slot, IsIndexed, get_elem?-changed}

pub get_elem?-set_self :
    (xs : List PollFd) (i : ℕ) (y x : PollFd)
    → get_elem? xs i ≡ some x
    → get_elem? (set xs i y) i ≡ some y
get_elem?-set_self [] i y x e = cc
get_elem?-set_self (z ∷ xs) zero y x e = refl
get_elem?-set_self (z ∷ xs) (suc i) y x e = get_elem?-set_self xs i y x e

pub get_elem?-set_ne :
    (xs : List PollFd) (i : ℕ) (y : PollFd) (j : ℕ)
    → j ≢ i
    → get_elem? (set xs i y) j ≡ get_elem? xs j
get_elem?-set_ne [] i y j e = refl
get_elem?-set_ne (z ∷ xs) zero y zero e = absurd (e refl)
get_elem?-set_ne (z ∷ xs) zero y (suc j) e = refl
get_elem?-set_ne (z ∷ xs) (suc i) y zero e = refl
get_elem?-set_ne (z ∷ xs) (suc i) y (suc j) e = get_elem?-set_ne xs i y j (λ f. e (ap suc f))

module _ (h index : ℕ) (p : Pollpoller) (old : PollFd) (v : IsIndexed p)
    (is_at : (p.store h).index ≡ some index) (here : get_elem? p.fds index ≡ some old) where
  abbrev pub fresh : PollFd
  fresh = record old { events = (p.store h).ievents; revents = event_none }

  abbrev pub refreshed : Pollpoller
  refreshed = record p { fds = set p.fds index fresh }

  pub update_handler-done : update_handler h p ≡ done refreshed
  unfolding update_handler
  update_handler-done = rw (is_at, update_handler, here)

  refreshed-slot : (j : ℕ) (x : PollFd) → get_elem? refreshed.fds j ≡ some x → Slot refreshed j x
  refreshed-slot j x e = elim (get_elem?-changed p.fds index fresh j x e) [
    | inl (same, new) ↦
        let s = v.slot index old here in
        rw (same, sym new)
          (record { handler = s.handler; found = s.found; handle = s.handle; index = s.index })
    | inr (away, kept) ↦
        let s = v.slot j x kept in
        record { handler = s.handler; found = s.found; handle = s.handle; index = s.index }
  ]

  -- In a poller in which every handler keeps the slot of its descriptor as its index, a handler
  -- that is registered is updated: its descriptor is watched for the events that the handler waits
  -- for, with none pending, the other descriptors and the map are as before, and every handler
  -- keeps its index.
  pub update_handler-IsIndexed :
      Ends
        (λ r.
          IsIndexed r
          × (r.event_handler_map ≡ p.event_handler_map)
          × (get_elem? r.fds index ≡ some fresh)
          × ((j : ℕ) → j ≢ index → get_elem? r.fds j ≡ get_elem? p.fds j))
        (update_handler h p)
  update_handler-IsIndexed = rw update_handler-done (
      ends (
        record { slot = refreshed-slot },
        refl,
        get_elem?-set_self p.fds index fresh old here,
        get_elem?-set_ne p.fds index fresh,
      ))
