-- ===== src/EventLoop/Registry/Placing.antt =====
-- A handler that is made leaves what is watched as it is.
use qg_server.Common.{
  ℕ, ◌≡◌, ◌≢◌, refl, ap, ◌∙◌, inl, inr, false, true, Ends, Ends-then, Ends-weaken, arith,
  Bool-cases, ◌==◌, none, some,
}
use qg_server.EventHandler.{Events, EventHandler, event_none, event_read, join}
use qg_server.Pollpoller.{store_at}
use qg_server.Pollpoller.Slots.{IsIndexed, keep-Slot, store_at-other}
use qg_server.Pollpoller.Interest.{
  Interest, Watch, assign, View-keeps, Shown, add_watch, change_watch,
}
use qg_server.EventLoop.Registry.{Registry, place_handler, read_on, start_reading}
use qg_server.EventLoop.Registry.Refines.{perform-Implements, Implements, registers, changes}
use mathlib.Core.Path.{subst}

abbrev pub know_handler : ℕ → EventHandler → Interest → Interest
know_handler h e t = record t {
  handle = assign t.handle h e.handle;
  wanted = assign t.wanted h e.ievents;
}

-- What a handler is known for after one was placed.
placed_known {ℓ} :
    {A : Type ℓ} (field : EventHandler → A) (st : ℕ → EventHandler) (f : ℕ → A) (h : ℕ)
    (e : EventHandler)
    → ((k : ℕ) → field (st k) ≡ f k)
    → (k : ℕ) → field (store_at st h e k) ≡ assign f h (field e) k
placed_known field st f h e known k = elim (Bool-cases (k == h)) [
  | inl here ↦ rw here refl
  | inr other ↦ rw other (known k)
]

module _ (h : ℕ) (e : EventHandler) (r : Registry) (t : Interest) (i : Implements r t)
    (new : t.used h ≡ false) (fresh : e.index ≡ none) where
  abbrev after : Registry
  after = place_handler h e r

  -- A handler that is registered is not the new one.
  apart : (k slot : ℕ) → (r.poller.store k).index ≡ some slot → k ≢ h
  apart k slot is_at same =
      let unset = i.shows.unused h new in
      let is_at_h : (r.poller.store h).index ≡ some slot = rw same at is_at in cc

  kept :
      (k slot : ℕ) → (r.poller.store k).index ≡ some slot → after.poller.store k ≡ r.poller.store k
  kept k slot is_at = store_at-other r.poller.store h e k (apart k slot is_at)

  after-IsIndexed : IsIndexed after.poller
  after-IsIndexed = record {
    slot = λ n x f.
        let s = i.shows.indexed.slot n x f in
        keep-Slot r.poller after.poller n x s refl (kept s.handler n s.index);
  }

  after-Shown : (fd : ℕ) (w : Watch) → Shown r.poller fd w → Shown after.poller fd w
  after-Shown fd w s =
      let same = kept w.handler s.slot s.index in
      record {
        slot = s.slot;
        entry = s.entry;
        mapped = s.mapped;
        handle = ap (λ (g : EventHandler). g.handle) same ∙ s.handle;
        index = ap (λ (g : EventHandler). g.index) same ∙ s.index;
        here = s.here;
        fd_of = s.fd_of;
        events = s.events;
        quiet = s.quiet;
      }

  after-unused : (k : ℕ) → t.used k ≡ false → (after.poller.store k).index ≡ none
  after-unused k unused = elim (Bool-cases (k == h)) [
    | inl here ↦ rw here fresh
    | inr other ↦ rw other (i.shows.unused k unused)
  ]

  pub place_handler-Implements : Implements after (know_handler h e t)
  place_handler-Implements = record {
    watches = record { indexed = after-IsIndexed; same = i.watches.same };
    shows = record {
      indexed = after-IsIndexed;
      view = λ fd.
          View-keeps r.poller after.poller fd (t.watched fd) refl (after-Shown fd)
            (i.shows.view fd);
      handles = placed_known (λ g. g.handle) r.poller.store t.handle h e i.shows.handles;
      wanted = placed_known (λ g. g.ievents) r.poller.store t.wanted h e i.shows.wanted;
      unused = after-unused;
    };
  }

-- A handler that waits for no event is made, registered and set to reading.
abbrev pub reading_table : ℕ → EventHandler → Interest → Interest
reading_table h e t = change_watch h event_read (add_watch h (know_handler h e t))

pub start_reading-Implements :
    (h : ℕ) (e : EventHandler) (r : Registry) (t : Interest)
    → Implements r t
    → t.used h ≡ false
    → t.watched e.handle ≡ none
    → e.index ≡ none
    → e.ievents ≡ event_none
    → Ends (λ q. Implements q (reading_table h e t)) (start_reading h e r)
unfolding start_reading
start_reading-Implements h e r t i new free fresh waits =
    let start = know_handler h e t in
    let own : Watch = record { handler = h; events = start.wanted h; quiet = true } in
    let fd_of : start.handle h ≡ e.handle = ground arith in
    let here : (add_watch h start).watched (start.handle h) ≡ some own = ground arith in
    let wants : start.wanted h ≡ e.ievents = ground arith in
    let reads : join (start.wanted h) event_read ≡ event_read = rw (wants, waits) refl in
    Ends-then
      (perform-Implements (place_handler h e r) start (place_handler-Implements h e r t i new fresh)
        (registers h new (rw fd_of free)))
      λ q j.
        Ends-weaken (perform-Implements q (add_watch h start) j (changes read_on h own refl here))
          λ u k.
            subst (λ (es : Events). Implements u (change_watch h es (add_watch h start))) reads k
