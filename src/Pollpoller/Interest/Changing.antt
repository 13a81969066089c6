-- ===== src/Pollpoller/Interest/Changing.antt =====
-- `Pollpoller::updateHandler`, after a change of the events that a handler waits for.
use mathlib.Core.Path.{subst}
use qg_server.Common.{
  ℕ, ◌≡◌, ◌≢◌, refl, sym, ap, ◌∙◌, inl, inr, true, Bool-cases, some, done, Ends, ends, Ends-done,
  ◌==◌, get_elem?,
}
use qg_server.EventHandler.{Events, EventHandler}
use qg_server.Pollpoller.{PollFd, Pollpoller, store_at, update_handler}
use qg_server.Pollpoller.Slots.{IsIndexed, store_at-here}
use qg_server.Pollpoller.Update.{
  fresh, refreshed, update_handler-done, update_handler-IsIndexed, get_elem?-set_self,
  get_elem?-set_ne,
}
use qg_server.Pollpoller.Interest.{
  Watch, Interest, assign, change_watch, Shown, View, Shows, View-keeps, View-assign,
}
use qg_server.Pollpoller.Interest.Adding.{store_at-all}

-- The handler `h` waits for the events `e`.
abbrev pub want : ℕ → Events → Pollpoller → Pollpoller
want h e p = record p { store = store_at p.store h (record (p.store h) { ievents = e }) }

module _ (h : ℕ) (e : Events) (p : Pollpoller) (s : Interest) (v : Shows p s) (w : Watch)
    (mine : w.handler ≡ h) (here : s.watched (s.handle h) ≡ some w) where
  abbrev pub wanting : EventHandler
  wanting = record (p.store h) { ievents = e }

  abbrev pub changed : Pollpoller
  changed = want h e p

  pub handle_same : (k : ℕ) → (changed.store k).handle ≡ (p.store k).handle
  handle_same = store_at-all (λ (g : EventHandler). g.handle) p.store h wanting refl

  index_same : (k : ℕ) → (changed.store k).index ≡ (p.store k).index
  index_same = store_at-all (λ (g : EventHandler). g.index) p.store h wanting refl

  pub changed-IsIndexed : IsIndexed changed
  changed-IsIndexed = record {
    slot = λ i x f.
        let a = v.indexed.slot i x f in
        record {
          handler = a.handler;
          found = a.found;
          handle = handle_same a.handler ∙ a.handle;
          index = index_same a.handler ∙ a.index;
        };
  }

  pub shown : Shown p (s.handle h) w
  shown = subst (View p (s.handle h)) here (v.view (s.handle h))

  pub is_at : (changed.store h).index ≡ some shown.slot
  is_at = index_same h ∙ sym (ap (λ (k : ℕ). (p.store k).index) mine) ∙ shown.index

  abbrev after : Pollpoller
  after = refreshed h shown.slot changed shown.entry changed-IsIndexed is_at shown.here

  abbrev entry : PollFd
  entry = fresh h shown.slot changed shown.entry changed-IsIndexed is_at shown.here

  after-done : update_handler h changed ≡ done after
  after-done =
      update_handler-done h shown.slot changed shown.entry changed-IsIndexed is_at shown.here

  after-IsIndexed : IsIndexed after
  after-IsIndexed =
      (Ends-done (
        rw after-done at (
          update_handler-IsIndexed h shown.slot changed shown.entry changed-IsIndexed is_at
            shown.here))).0

  wanted_here : (changed.store h).ievents ≡ e
  wanted_here = ap (λ (g : EventHandler). g.ievents) (store_at-here p.store h wanting)

  here-Shown : Shown after (s.handle h) (record { handler = h; events = e; quiet = true })
  here-Shown = record {
    slot = shown.slot;
    entry = entry;
    mapped = shown.mapped ∙ ap (λ (k : ℕ). some k) mine;
    handle = handle_same h ∙ v.handles h;
    index = is_at;
    here = get_elem?-set_self p.fds shown.slot entry shown.entry shown.here;
    fd_of = shown.fd_of;
    events = wanted_here;
    quiet = refl;
  }

  others-Shown : (j : ℕ) → j ≢ s.handle h → (o : Watch) → Shown p j o → Shown after j o
  others-Shown j apart o old =
      let away : old.slot ≢ shown.slot = λ same.
        let there : get_elem? p.fds old.slot ≡ some shown.entry =
          ap (get_elem? p.fds) same ∙ shown.here in
        let now = old.here in
        let one : old.entry ≡ shown.entry = cc in
        apart (sym old.fd_of ∙ ap (λ (x : PollFd). x.fd) one ∙ shown.fd_of) in
      record {
        slot = old.slot;
        entry = old.entry;
        mapped = old.mapped;
        handle = handle_same o.handler ∙ old.handle;
        index = index_same o.handler ∙ old.index;
        here = get_elem?-set_ne p.fds shown.slot entry old.slot away ∙ old.here;
        fd_of = old.fd_of;
        events = old.events;
        quiet = old.quiet;
      }

  after-wanted : (k : ℕ) → (after.store k).ievents ≡ assign s.wanted h e k
  after-wanted k = elim (Bool-cases (k == h)) [
    | inl same ↦ rw same
    | inr other ↦ rw other (v.wanted k)
  ]

  -- The handler of a descriptor that is watched waits for other events and is updated: the
  -- descriptor is watched for these, with none found, and the rest of the view is as before.
  pub update_handler-Shows : Ends (λ q. Shows q (change_watch h e s)) (update_handler h changed)
  update_handler-Shows = rw after-done (
      ends (record {
        indexed = after-IsIndexed;
        view =
            View-assign after s.watched (s.handle h)
              (some (record { handler = h; events = e; quiet = true })) here-Shown
              (λ j apart.
                View-keeps p after j (s.watched j) refl (others-Shown j apart) (v.view j));
        handles = λ k. handle_same k ∙ v.handles k;
        wanted = after-wanted;
        unused = λ k unused. index_same k ∙ v.unused k unused;
      }))
