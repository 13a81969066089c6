-- ===== src/Pollpoller/Interest/Removing.antt =====
-- `Pollpoller::removeHandler` takes a descriptor off the view.
use mathlib.Core.Path.{subst}
use qg_server.Common.{
  ℕ, zero, suc, ◌-◌, ◌<◌, ◌≡◌, ◌≢◌, refl, sym, ap, ◌∙◌, inl, inr, true, false, Bool-cases, List, [],
  ◌∷◌, none, some, done, Ends, ends, Ends-done, ◌==◌, ==_iff, arith, get_elem?, set, take, length,
}
use qg_server.EventHandler.{EventHandler}
use qg_server.Pollpoller.{PollFd, Pollpoller, no_events, remove_handler}
use qg_server.Pollpoller.Slots.{
  Slot, IsIndexed, inside, map_at-here, map_at-other, store_at-here, store_at-other, without, back,
  back_slot, end_taken, remove_handler-done, remove_handler-IsIndexed,
}
use qg_server.Pollpoller.Update.{get_elem?-set_self, get_elem?-set_ne}
use qg_server.Pollpoller.Interest.{
  Watch, Interest, drop_watch, Shown, View, Shows, View-keeps, View-assign,
}
use qg_server.Pollpoller.Interest.Adding.{store_at-all}

get_elem?-take_lt :
    (n : ℕ) (xs : List PollFd) (i : ℕ) → i < n → get_elem? (take n xs) i ≡ get_elem? xs i
get_elem?-take_lt zero xs i h = absurd (omega arith)
get_elem?-take_lt (suc n) [] i h = refl
get_elem?-take_lt (suc n) (x ∷ xs) zero h = refl
get_elem?-take_lt (suc n) (x ∷ xs) (suc i) h = get_elem?-take_lt n xs i (omega arith)

-- The entries before the last, once the last has taken the slot `k`.
get_elem?-moved :
    (xs : List PollFd) (k : ℕ) (b x : PollFd) (i : ℕ)
    → i < length xs - 1
    → i ≢ k
    → get_elem? (take (length xs - 1) (set (set xs k b) (length xs - 1) x)) i ≡ get_elem? xs i
get_elem?-moved xs k b x i below apart =
    let end = length xs - 1 in
    let before_end : i ≢ end = omega (arith, below) in
    get_elem?-take_lt end (set (set xs k b) end x) i below
    ∙ get_elem?-set_ne (set xs k b) end x i before_end
    ∙ get_elem?-set_ne xs k b i apart

get_elem?-moved_here :
    (xs : List PollFd) (k : ℕ) (b x y : PollFd)
    → k < length xs - 1
    → get_elem? xs k ≡ some y
    → get_elem? (take (length xs - 1) (set (set xs k b) (length xs - 1) x)) k ≡ some b
get_elem?-moved_here xs k b x y below e =
    let end = length xs - 1 in
    let before_end : k ≢ end = omega (arith, below) in
    get_elem?-take_lt end (set (set xs k b) end x) k below
    ∙ get_elem?-set_ne (set xs k b) end x k before_end
    ∙ get_elem?-set_self xs k b y e

module _ (h : ℕ) (p : Pollpoller) (s : Interest) (v : Shows p s) (w : Watch) (mine : w.handler ≡ h)
    (here : s.watched (s.handle h) ≡ some w) (quiet : w.quiet ≡ true) where
  pub shown : Shown p (s.handle h) w
  shown = subst (View p (s.handle h)) here (v.view (s.handle h))

  pub is_at : (p.store h).index ≡ some shown.slot
  is_at = sym (ap (λ (k : ℕ). (p.store k).index) mine) ∙ shown.index

  pub mapped : p.event_handler_map (p.store h).handle ≡ some h
  mapped = ap p.event_handler_map (v.handles h) ∙ shown.mapped ∙ ap (λ (k : ℕ). some k) mine

  abbrev after : Pollpoller
  after = without h shown.slot p shown.entry v.indexed is_at shown.here mapped

  abbrev last : PollFd
  last = back h shown.slot p shown.entry v.indexed is_at shown.here mapped

  abbrev last_slot : Slot p (length p.fds - 1) last
  last_slot = back_slot h shown.slot p shown.entry v.indexed is_at shown.here mapped

  last_here : get_elem? p.fds (length p.fds - 1) ≡ some last
  last_here = (end_taken h shown.slot p shown.entry v.indexed is_at shown.here mapped).1

  abbrev moved : EventHandler
  moved = record (p.store last_slot.handler) { index = some shown.slot }

  pub no_event : no_events shown.entry.revents ≡ true
  no_event = shown.quiet ∙ quiet

  after-done : remove_handler h p ≡ done after
  after-done =
      remove_handler-done h shown.slot p shown.entry v.indexed is_at shown.here mapped no_event

  after-IsIndexed : IsIndexed after
  after-IsIndexed = Ends-done (
      rw after-done at (
        remove_handler-IsIndexed h shown.slot p shown.entry v.indexed is_at shown.here mapped
          no_event))

  other_slot : (j : ℕ) → j ≢ s.handle h → (o : Watch) (old : Shown p j o) → old.slot ≢ shown.slot
  other_slot j apart o old same =
      let there : get_elem? p.fds old.slot ≡ some shown.entry =
        ap (get_elem? p.fds) same ∙ shown.here in
      let now = old.here in
      let one : old.entry ≡ shown.entry = cc in
      apart (sym old.fd_of ∙ ap (λ (x : PollFd). x.fd) one ∙ shown.fd_of)

  still_mapped : (j : ℕ) → j ≢ s.handle h → after.event_handler_map j ≡ p.event_handler_map j
  still_mapped j apart =
      map_at-other p.event_handler_map (p.store h).handle none j (λ e. apart (e ∙ v.handles h))

  pub handle_same : (k : ℕ) → (after.store k).handle ≡ (p.store k).handle
  handle_same = store_at-all (λ (g : EventHandler). g.handle) p.store last_slot.handler moved refl

  -- The descriptor that was last is in the slot that became free.
  last-Shown :
      (j : ℕ)
      → j ≢ s.handle h
      → (o : Watch) (old : Shown p j o) → old.slot ≡ length p.fds - 1
      → Shown after j o
  last-Shown j apart o old at_end =
      let now : get_elem? p.fds (length p.fds - 1) ≡ some old.entry =
        sym (ap (get_elem? p.fds) at_end) ∙ old.here in
      let also = last_here in
      let one : last ≡ old.entry = cc in
      let fd_of : last.fd ≡ j = ap (λ (x : PollFd). x.fd) one ∙ old.fd_of in
      let by_last : p.event_handler_map j ≡ some last_slot.handler =
        sym (ap p.event_handler_map fd_of) ∙ last_slot.found in
      let by_old = old.mapped in
      let same : o.handler ≡ last_slot.handler = cc in
      let other = other_slot j apart o old in
      let size = inside p.fds shown.slot shown.entry shown.here in
      record {
        slot = shown.slot;
        entry = last;
        mapped = still_mapped j apart ∙ old.mapped;
        handle = handle_same o.handler ∙ old.handle;
        index =
            ap (λ (k : ℕ). (after.store k).index) same
            ∙ ap (λ (g : EventHandler). g.index) (store_at-here p.store last_slot.handler moved);
        here =
            get_elem?-moved_here p.fds shown.slot last shown.entry shown.entry
              (omega (arith, size, at_end, other)) shown.here;
        fd_of = fd_of;
        events = ap (λ (x : PollFd). x.events) one ∙ old.events;
        quiet = ap (λ (x : PollFd). no_events x.revents) one ∙ old.quiet;
      }

  -- Any other descriptor keeps its slot.
  middle-Shown :
      (j : ℕ)
      → j ≢ s.handle h
      → (o : Watch) (old : Shown p j o) → old.slot ≢ length p.fds - 1
      → Shown after j o
  middle-Shown j apart o old away =
      let index = old.index in
      let at_end = last_slot.index in
      let same =
        store_at-other p.store last_slot.handler moved o.handler
          (λ one. let clash : old.slot ≡ length p.fds - 1 = cc in away clash) in
      let size = inside p.fds old.slot old.entry old.here in
      record {
        slot = old.slot;
        entry = old.entry;
        mapped = still_mapped j apart ∙ old.mapped;
        handle = ap (λ (g : EventHandler). g.handle) same ∙ old.handle;
        index = ap (λ (g : EventHandler). g.index) same ∙ old.index;
        here =
            get_elem?-moved p.fds shown.slot last shown.entry old.slot (omega (arith, size, away))
              (other_slot j apart o old)
            ∙ old.here;
        fd_of = old.fd_of;
        events = old.events;
        quiet = old.quiet;
      }

  others-Shown : (j : ℕ) → j ≢ s.handle h → (o : Watch) → Shown p j o → Shown after j o
  others-Shown j apart o old = elim (Bool-cases (old.slot == length p.fds - 1)) [
    | inl e ↦ last-Shown j apart o old ((==_iff old.slot (length p.fds - 1)).0 e)
    | inr e ↦ middle-Shown j apart o old (ground (arith, e))
  ]

  gone : after.event_handler_map (s.handle h) ≡ none
  gone =
      ap after.event_handler_map (sym (v.handles h))
      ∙ map_at-here p.event_handler_map (p.store h).handle none

  after-unused : (k : ℕ) → s.used k ≡ false → (after.store k).index ≡ none
  after-unused k unused =
      let index = v.unused k unused in
      let at_end = last_slot.index in
      ap (λ (g : EventHandler). g.index)
        (store_at-other p.store last_slot.handler moved k (λ one. cc))
      ∙ index

  -- A descriptor that is watched, for which no event has been found, is removed: it is not watched,
  -- and the rest of the view is as before.
  pub remove_handler-Shows : Ends (λ q. Shows q (drop_watch h s)) (remove_handler h p)
  remove_handler-Shows = rw after-done (
      ends (record {
        indexed = after-IsIndexed;
        view = View-assign after s.watched (s.handle h) none gone λ j apart.
            View-keeps p after j (s.watched j) (still_mapped j apart) (others-Shown j apart)
              (v.view j);
        handles = λ k. handle_same k ∙ v.handles k;
        wanted = λ k.
            store_at-all (λ (g : EventHandler). g.ievents) p.store last_slot.handler moved refl k
            ∙ v.wanted k;
        unused = after-unused;
      }))
