-- ===== src/EventLoop/Registry/Refines.antt =====
-- The handlers of a loop, as its clients see them: a table of the descriptors that are watched. The
-- loop's map, the poller's map, its list of descriptors and the indices implement this table.
use mathlib.Core.Path.{subst}
use qg_server.Common.{
  ℕ, ◌≡◌, refl, sym, ap, ◌∙◌, true, false, List, [], ◌∷◌, none, some, Outcome, done, ◌>>=◌, Ends,
  ends, Ends-then, Ends-both, Ends-weaken,
}
use qg_server.EventHandler.{
  Events, event_none, event_read, event_write, event_error, event_all, join, EventHandler,
}
use qg_server.Pollpoller.Interest.{
  Watch, Interest, add_watch, change_watch, drop_watch, View, Shows,
}
use qg_server.Pollpoller.Interest.Adding
use qg_server.Pollpoller.Interest.Changing
use qg_server.Pollpoller.Interest.Changing.{want}
use qg_server.Pollpoller.Interest.Removing
use qg_server.EventLoop.Registry.{
  Registry, handle_of, register_handler, update_handler, remove_handler, Change, read_on, write_on,
  error_on, all_on, read_off, write_off, error_off, all_off, apply_change, change_interest,
}
use qg_server.EventLoop.Registry.Watching.{
  Watches, register_handler-Watches, update_handler-Watches, remove_handler-Watches,
}

-- The events that are waited for after a change.
abbrev pub events_after : Change → Events → Events
events_after read_on e = join e event_read
events_after write_on e = join e event_write
events_after error_on e = join e event_error
events_after all_on e = join e event_all
events_after read_off e = record e { read = false }
events_after write_off e = record e { write = false }
events_after error_off e = record e { error = false }
events_after all_off e = event_none

pub data Op : Type 0 where
  register : ℕ → Op
  change : Change → ℕ → Op
  remove : ℕ → Op

abbrev pub perform : Op → Registry → Outcome Registry
perform (register h) r = register_handler h r
perform (change c h) r = change_interest c h r
perform (remove h) r = remove_handler h r

abbrev pub perform_all : List Op → Registry → Outcome Registry
perform_all [] r = done r
perform_all (op ∷ ops) r = perform op r >>= λ s. perform_all ops s

-- What each operation does to the table, and when it may be called: a handler is registered once,
-- for a descriptor that is not watched; it is changed and removed while it is registered, and
-- removed only if no event has been found since it was registered or changed.
pub data Allowed (s : Interest) : Op → Interest → Type 0 where
  registers :
      (h : ℕ)
      → s.used h ≡ false
      → s.watched (s.handle h) ≡ none
      → Allowed s (register h) (add_watch h s)
  changes :
      (c : Change) (h : ℕ) (w : Watch)
      → w.handler ≡ h
      → s.watched (s.handle h) ≡ some w
      → Allowed s (change c h) (change_watch h (events_after c (s.wanted h)) s)
  removes :
      (h : ℕ) (w : Watch)
      → w.handler ≡ h
      → s.watched (s.handle h) ≡ some w
      → w.quiet ≡ true
      → Allowed s (remove h) (drop_watch h s)

pub data AllowedAll : Interest → List Op → Interest → Type 0 where
  finished : {s : Interest} → AllowedAll s [] s
  step :
      {s : Interest} {op : Op} {ops : List Op} {t u : Interest}
      → Allowed s op t
      → AllowedAll t ops u
      → AllowedAll s (op ∷ ops) u

pub record Implements (r : Registry) (s : Interest) : Type 0 where
  pub watches : Watches r
  pub shows : Shows r.poller s

apply_change_lem :
    (c : Change) (e : EventHandler)
    → apply_change c e ≡ record e { ievents = events_after c e.ievents }
apply_change_lem read_on e = refl
apply_change_lem _ e = refl

module _ (r : Registry) (s : Interest) (i : Implements r s) where
  register-Implements :
      (h : ℕ)
      → s.used h ≡ false
      → s.watched (s.handle h) ≡ none
      → Ends (λ q. Implements q (add_watch h s)) (register_handler h r)
  unfolding register_handler
  register-Implements h new free =
      let free_there = Adding.free_there h r.poller s i.shows new free in
      let unset = Adding.unset h r.poller s i.shows new free in
      let no_entry : r.handler_map (handle_of h r) ≡ none =
        i.watches.same (handle_of h r) ∙ free_there in
      Ends-weaken
        (Ends-both (register_handler-Watches h r i.watches unset no_entry) (
          Ends-then (Adding.register_handler-Shows h r.poller s i.shows new free)
            λ q shows. ends shows))
        λ q (watched, shows). record { watches = watched.0; shows = shows }

  module _ (h : ℕ) (w : Watch) (mine : w.handler ≡ h) (here : s.watched (s.handle h) ≡ some w) where
    entry_of : r.handler_map (handle_of h r) ≡ some h
    entry_of =
        i.watches.same (handle_of h r)
        ∙ ap r.poller.event_handler_map (i.shows.handles h)
        ∙ (subst (View r.poller (s.handle h)) here (i.shows.view (s.handle h))).mapped
        ∙ ap (λ (k : ℕ). some k) mine

    remove-Implements :
        w.quiet ≡ true → Ends (λ q. Implements q (drop_watch h s)) (remove_handler h r)
    unfolding remove_handler
    remove-Implements quiet =
        let shown = Removing.shown h r.poller s i.shows w mine here quiet in
        let is_at = Removing.is_at h r.poller s i.shows w mine here quiet in
        let no_event = Removing.no_event h r.poller s i.shows w mine here quiet in
        Ends-weaken
          (Ends-both
            (remove_handler-Watches h shown.slot r shown.entry i.watches entry_of is_at shown.here
              no_event)
            (rw entry_of (
              Ends-then (Removing.remove_handler-Shows h r.poller s i.shows w mine here quiet)
                λ q shows. ends shows)))
          λ q (watched, shows). record { watches = watched.0; shows = shows }

    -- The registry in which the handler waits for the events `e`, before it is updated.
    abbrev wanting : Events → Registry
    wanting e = record r { poller = want h e r.poller }

    wanting-Watches : (e : Events) → Watches (wanting e)
    wanting-Watches e = record {
      indexed = Changing.changed-IsIndexed h e r.poller s i.shows w mine here;
      same = i.watches.same;
    }

    update-Implements :
        (e : Events) → Ends (λ q. Implements q (change_watch h e s)) (update_handler h (wanting e))
    unfolding update_handler
    update-Implements e =
        let shown = Changing.shown h e r.poller s i.shows w mine here in
        let is_at = Changing.is_at h e r.poller s i.shows w mine here in
        let same_handle = Changing.handle_same h e r.poller s i.shows w mine here h in
        let entry : r.handler_map (handle_of h (wanting e)) ≡ some h =
          ap r.handler_map same_handle ∙ entry_of in
        Ends-weaken
          (Ends-both
            (update_handler-Watches h shown.slot (wanting e) shown.entry (wanting-Watches e) entry
              is_at shown.here)
            (rw entry (
              Ends-then (Changing.update_handler-Shows h e r.poller s i.shows w mine here)
                λ q shows. ends shows)))
          λ q (watched, shows). record { watches = watched.0; shows = shows }

    change-Implements :
        (c : Change)
        → Ends
            (λ q. Implements q (change_watch h (events_after c (s.wanted h)) s))
            (change_interest c h r)
    unfolding change_interest
    change-Implements c =
        rw (apply_change_lem c (r.poller.store h), sym (i.shows.wanted h))
          (update-Implements (events_after c (r.poller.store h).ievents))

pub perform-Implements :
    (r : Registry) (s : Interest) {op : Op} {t : Interest}
    → Implements r s
    → Allowed s op t
    → Ends (λ q. Implements q t) (perform op r)
perform-Implements r s i (registers h new free) = register-Implements r s i h new free
perform-Implements r s i (changes c h w mine here) = change-Implements r s i h w mine here c
perform-Implements r s i (removes h w mine here quiet) = remove-Implements r s i h w mine here quiet

-- A loop whose maps, list of descriptors and indices implement a table of watched descriptors still
-- implements it after any operations that the table allows: none of them faults, and each does to
-- the table what it is meant to do.
pub perform_all-Implements :
    (r : Registry) {s t : Interest} {ops : List Op}
    → Implements r s
    → AllowedAll s ops t
    → Ends (λ q. Implements q t) (perform_all ops r)
perform_all-Implements r i finished = ends i
perform_all-Implements r {s} i (step a rest) =
    Ends-then (perform-Implements r s i a) λ q j. perform_all-Implements q j rest
