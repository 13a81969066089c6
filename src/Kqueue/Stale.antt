-- ===== src/Kqueue/Stale.antt =====
-- What the kernel still watches for the poller for kqueue when a handler is gone.
use qg_server.Common.{
  ℕ, ◌+◌, ◌<◌, ◌≤◌, ◌≡◌, refl, sym, ap, ◌∙◌, true, List, [], ◌∷◌, Option, none, some, done, fault,
  ◌>>=◌, arith, length, Ends, ends, Ends-then, Ends-both, Ends-weaken, Ends-value,
}
use qg_server.Common.Int.{ℤ, pos, negsuc}
use qg_server.Common.Maps.{lookup, erase, length-erase}
use qg_server.TimeStamp.{TimeStamp}
use qg_server.EventHandler.{EventHandler, is_reading, disable_all}
use qg_server.Pollpoller.{store_at}
use qg_server.Pollpoller.Slots.{store_at-here}
use qg_server.EventLoop.Registry.{all_off}
use qg_server.Kqueue.{
  evfilt_read, KeventChange, KqueuePoller, Kernel, set_filters, update_handler, change_interest,
  remove_handler, wait, dispatch,
}
use qg_server.Kqueue.Filters.{watches}
use qg_server.Kqueue.Watching.{
  IsWatching, change_interest-IsWatching, remove_handler-IsWatching, pop_back-length,
}

-- A handler that waits for nothing changes no filter.
change_interest_off :
    (h : ℕ) (p : KqueuePoller)
    → lookup (p.store h).handle p.event_handler_map ≡ some h
    → change_interest all_off h p
      ≡ done (record p { store = store_at p.store h (disable_all (p.store h)) })
unfolding change_interest update_handler set_filters
change_interest_off h p mapped = rw (store_at-here p.store h (disable_all (p.store h)), mapped) refl

record Gone (p : KqueuePoller) (d : ℕ) (q : KqueuePoller) : Type 0 where
  changes : q.changes ≡ p.changes
  missing : lookup d q.event_handler_map ≡ none
  entries : length q.events + 1 ≡ length p.events

remove_handler_off :
    (h : ℕ) (p : KqueuePoller) (e : EventHandler)
    → IsWatching p
    → p.store h ≡ disable_all e
    → lookup e.handle p.event_handler_map ≡ some h
    → Ends (Gone p e.handle) (remove_handler h p)
unfolding remove_handler set_filters
remove_handler_off h p e v off mapped =
    let fewer = length-erase e.handle h p.event_handler_map mapped in
    rw (off, mapped)
      (Ends-then
        (pop_back-length (length (erase e.handle p.event_handler_map)) p.events
          (omega (arith, fewer, v.entries)))
        λ events shorter. ends (record {
          changes = refl;
          missing = v.keys e.handle;
          entries = omega (arith, fewer, v.entries, shorter);
        }))

module _ (kevent : Kernel) (d : ℕ)
    (finds : (cs : List KeventChange) (sz : ℕ) (timeout : Option (ℤ × ℕ))
      → watches cs d evfilt_read ≡ true
      → 0 < sz
      → kevent cs sz timeout ≡ (pos 1, record { ident = d; filter = evfilt_read } ∷ [])) where
  wait_faults :
      (time_stamp : TimeStamp) (q : KqueuePoller)
      → watches q.changes d evfilt_read ≡ true
      → lookup d q.event_handler_map ≡ none
      → 0 < length q.events
      → wait kevent (negsuc 0) time_stamp q ≡ fault
  unfolding wait dispatch
  wait_faults time_stamp q watched missing room =
      rw (finds q.changes (length q.events) _ watched room, missing) refl

  -- While data has come for the descriptor `d`, and kevent reports the data wherever it may store
  -- an event: a handler that is registered for reading `d` beside another handler, and that is
  -- disabled and then removed, as a connection that closes is, is removed without a fault, and the
  -- next wait of the poller for kqueue stops at the assertion that the descriptor is registered.
  pub removed_handler_faults :
      (h : ℕ) (time_stamp : TimeStamp) (p : KqueuePoller)
      → IsWatching p
      → (p.store h).handle ≡ d
      → lookup d p.event_handler_map ≡ some h
      → is_reading (p.store h) ≡ true
      → 2 ≤ length p.event_handler_map
      → Ends
          (λ q. IsWatching q × (wait kevent (negsuc 0) time_stamp q ≡ fault))
          (change_interest all_off h p >>= remove_handler h)
  removed_handler_faults h time_stamp p v here mapped reads others =
      let e = p.store h in
      let key : lookup e.handle p.event_handler_map ≡ some h =
        ap (λ (i : ℕ). lookup i p.event_handler_map) here ∙ mapped in
      let off = record p { store = store_at p.store h (disable_all e) } in
      let same = store_at-here p.store h (disable_all e) in
      let valid : IsWatching off =
        Ends-value off (change_interest-IsWatching all_off h p v key)
          (change_interest_off h p key) in
      let key_off : lookup (off.store h).handle p.event_handler_map ≡ some h =
        ap (λ (x : EventHandler). lookup x.handle p.event_handler_map) same ∙ key in
      rw (change_interest_off h p key) (
        Ends-weaken
          (Ends-both (remove_handler-IsWatching h off valid key_off)
            (remove_handler_off h off e valid same key))
          λ q (w, gone). (
            w,
            wait_faults time_stamp q
                (ap (λ (cs : List KeventChange). watches cs d evfilt_read) gone.changes
                  ∙ (v.shown d h mapped).read reads)
                (ap (λ (i : ℕ). lookup i q.event_handler_map) (sym here) ∙ gone.missing)
                (omega (arith, others, v.entries, gone.entries)),
          ))
