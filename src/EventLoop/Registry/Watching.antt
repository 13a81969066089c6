-- ===== src/EventLoop/Registry/Watching.antt =====
-- The loop's map and the poller's hold the same handlers.
use qg_server.Common.{
  ℕ, ◌≡◌, refl, sym, ap, ◌∙◌, true, Option, none, some, Ends, ends, Ends-then, Ends-both, get_elem?,
}
use qg_server.EventHandler.{event_none}
use qg_server.Pollpoller
use qg_server.Pollpoller.{Pollpoller, PollFd, map_at, is_none, no_events}
use qg_server.Pollpoller.Slots.{
  IsIndexed, register_handler-IsIndexed, remove_handler-IsIndexed, remove_handler-entries,
  map_at-here,
}
use qg_server.Pollpoller.Update.{update_handler-IsIndexed}
use qg_server.EventLoop.Registry.{
  Registry, handle_of, emplace, register_handler, update_handler, remove_handler,
}

pub record Watches (r : Registry) : Type 0 where
  pub indexed : IsIndexed r.poller
  pub same : (fd : ℕ) → r.handler_map fd ≡ r.poller.event_handler_map fd

map_at-same :
    (m n : ℕ → Option ℕ) (k : ℕ) (v : Option ℕ) (j : ℕ)
    → m j ≡ n j
    → map_at m k v j ≡ map_at n k v j
map_at-same m n k v j e = rw e

poller_registers :
    (h : ℕ) (p : Pollpoller)
    → (p.store h).index ≡ none
    → Ends
        (λ q. q.event_handler_map ≡ map_at p.event_handler_map (p.store h).handle (some h))
        (Pollpoller.register_handler h p)
unfolding Pollpoller.register_handler
poller_registers h p unset = rw (unset, Pollpoller.register_handler) (ends refl)

-- A handler that is not registered, for a descriptor that has none, is registered with the loop and
-- with its poller.
pub register_handler-Watches :
    (h : ℕ) (r : Registry)
    → Watches r
    → (r.poller.store h).index ≡ none
    → r.handler_map (handle_of h r) ≡ none
    → Ends (λ s. Watches s × (s.handler_map (handle_of h r) ≡ some h)) (register_handler h r)
unfolding register_handler
register_handler-Watches h r w unset free =
    let fd = handle_of h r in
    let free_too : r.poller.event_handler_map fd ≡ none = sym (w.same fd) ∙ free in
    Ends-then
      (Ends-both (register_handler-IsIndexed h r.poller w.indexed unset free_too)
        (poller_registers h r.poller unset))
      λ q (indexed, entries).
        let placed : emplace fd h r.handler_map ≡ map_at r.handler_map fd (some h) =
          rw (free, emplace) in
        ends (
          record {
            indexed = indexed;
            same = λ k.
                ap (λ (m : ℕ → Option ℕ). m k) placed
                ∙ map_at-same r.handler_map r.poller.event_handler_map fd (some h) k (w.same k)
                ∙ sym (ap (λ (m : ℕ → Option ℕ). m k) entries);
          },
          ap (λ (m : ℕ → Option ℕ). m fd) placed ∙ map_at-here r.handler_map fd (some h),
        )

-- A handler that is registered with the loop and with its poller is updated: the map of the loop is
-- as before, and its descriptor is watched for the events that the handler waits for.
pub update_handler-Watches :
    (h index : ℕ) (r : Registry) (old : PollFd)
    → Watches r
    → r.handler_map (handle_of h r) ≡ some h
    → (r.poller.store h).index ≡ some index
    → get_elem? r.poller.fds index ≡ some old
    → Ends
        (λ s.
          Watches s
          × (s.handler_map ≡ r.handler_map)
          × (get_elem? s.poller.fds index
              ≡ some (record old { events = (r.poller.store h).ievents; revents = event_none })))
        (update_handler h r)
unfolding update_handler
update_handler-Watches h index r old w mine is_at here = rw mine (
    Ends-then (update_handler-IsIndexed h index r.poller old w.indexed is_at here)
      λ q (indexed, entries, watched, others). ends (
        record {
          indexed = indexed;
          same = λ k. w.same k ∙ sym (ap (λ (m : ℕ → Option ℕ). m k) entries);
        },
        refl,
        watched,
      ))

-- A handler that is registered with the loop and with its poller, with no event pending, is removed
-- from both.
pub remove_handler-Watches :
    (h index : ℕ) (r : Registry) (x : PollFd)
    → Watches r
    → r.handler_map (handle_of h r) ≡ some h
    → (r.poller.store h).index ≡ some index
    → get_elem? r.poller.fds index ≡ some x
    → no_events x.revents ≡ true
    → Ends (λ s. Watches s × (s.handler_map (handle_of h r) ≡ none)) (remove_handler h r)
unfolding remove_handler
remove_handler-Watches h index r x w mine is_at here quiet =
    let fd = handle_of h r in
    let mine_too : r.poller.event_handler_map fd ≡ some h = sym (w.same fd) ∙ mine in
    rw mine (
      Ends-then
        (Ends-both (remove_handler-IsIndexed h index r.poller x w.indexed is_at here mine_too quiet)
          (remove_handler-entries h index r.poller x w.indexed is_at here mine_too quiet))
        λ q (indexed, entries). ends (
          record {
            indexed = indexed;
            same = λ k.
                map_at-same r.handler_map r.poller.event_handler_map fd none k (w.same k)
                ∙ sym (ap (λ (m : ℕ → Option ℕ). m k) entries);
          },
          map_at-here r.handler_map fd none,
        ))
