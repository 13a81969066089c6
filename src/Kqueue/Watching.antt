-- ===== src/Kqueue/Watching.antt =====
-- What the kernel watches for the poller for kqueue, kept by each of its operations.
use qg_server.Common.{
  ℕ, suc, ◌≡◌, ◌≢◌, refl, sym, ap, ◌∙◌, false, List, [], ◌∷◌, Option, none, some, Outcome, arith,
  length, length-append, length-take, Ends, ends, Ends-then,
}
use qg_server.Common.Int.{ℤ, negsuc, eq_ℤ}
use qg_server.Common.Maps.{lookup, erase, length-erase, IsMap, IsMap-add, IsMap-erase}
use qg_server.EventHandler.{EventHandler}
use qg_server.Pollpoller.{store_at}
use qg_server.Pollpoller.Slots.{store_at-here, store_at-other}
use qg_server.EventLoop.Registry.{Change, read_on, apply_change}
use qg_server.Kqueue.{
  Kevent, KqueuePoller, new_kqueue_poller, last_kevent, pop_back, register_handler, update_handler,
  change_interest, remove_handler,
}
use qg_server.Kqueue.Filters.{
  Shown, OthersShown, AllShown-set, AllShown-erase, lookup-first, lookup-later,
}

-- What the poller keeps: each registered handler has its descriptor, the kernel watches the events
-- that it waits for, and there is an entry for the events of each handler.
pub record IsWatching (p : KqueuePoller) : Type 0 where
  pub keys : IsMap p.event_handler_map
  pub entries : length p.events ≡ length p.event_handler_map
  pub shown : (fd h : ℕ) → lookup fd p.event_handler_map ≡ some h → Shown p.changes fd (p.store h)

pub new_kqueue_poller-IsWatching :
    (kfd : ℤ) (store : ℕ → EventHandler)
    → eq_ℤ kfd (negsuc 0) ≡ false
    → Ends IsWatching (new_kqueue_poller kfd store)
unfolding new_kqueue_poller
new_kqueue_poller-IsWatching kfd store opened =
    rw opened (ends (record { keys = λ k. refl; entries = refl; shown = λ fd k found. absurd cc }))

register_handler-IsWatching :
    (h : ℕ) (p : KqueuePoller)
    → IsWatching p
    → lookup (p.store h).handle p.event_handler_map ≡ none
    → Ends IsWatching (register_handler h p)
unfolding register_handler
register_handler-IsWatching h p v new =
    let d = (p.store h).handle in
    rw new (
      ends (record {
        keys = IsMap-add d h p.event_handler_map new v.keys;
        entries = omega (arith, v.entries, length-append p.events (last_kevent (p.store h) ∷ []));
        shown =
            AllShown-set h p.changes ((d, h) ∷ p.event_handler_map) p.store
              (lookup-first d h p.event_handler_map)
              λ fd k apart found.
                v.shown fd k (sym (lookup-later d h fd p.event_handler_map apart) ∙ found);
      }))

update_handler-IsWatching :
    (h : ℕ) (p : KqueuePoller)
    → IsMap p.event_handler_map
    → length p.events ≡ length p.event_handler_map
    → lookup (p.store h).handle p.event_handler_map ≡ some h
    → OthersShown (p.store h).handle p.changes p.event_handler_map p.store
    → Ends IsWatching (update_handler h p)
unfolding update_handler
update_handler-IsWatching h p keys entries mapped others = rw mapped (
    ends (record {
      keys = keys;
      entries = entries;
      shown = AllShown-set h p.changes p.event_handler_map p.store mapped others;
    }))

apply_change-handle : (c : Change) (e : EventHandler) → (apply_change c e).handle ≡ e.handle
apply_change-handle read_on e = refl
apply_change-handle _ e = refl

pub change_interest-IsWatching :
    (c : Change) (h : ℕ) (p : KqueuePoller)
    → IsWatching p
    → lookup (p.store h).handle p.event_handler_map ≡ some h
    → Ends IsWatching (change_interest c h p)
unfolding change_interest
change_interest-IsWatching c h p v mapped =
    let e = apply_change c (p.store h) in
    let store = store_at p.store h e in
    let handle : (store h).handle ≡ (p.store h).handle =
      ap (λ (x : EventHandler). x.handle) (store_at-here p.store h e)
      ∙ apply_change-handle c (p.store h) in
    update_handler-IsWatching h (record p { store = store }) v.keys v.entries
      (ap (λ (i : ℕ). lookup i p.event_handler_map) handle ∙ mapped)
      λ fd k apart found.
        let old = v.shown fd k found in
        let other : k ≢ h =
          λ same. apart (sym old.handle ∙ ap (λ (i : ℕ). (p.store i).handle) same ∙ sym handle) in
        rw (store_at-other p.store h e k other) old

pub pop_back-length :
    (n : ℕ) (xs : List (Option Kevent))
    → length xs ≡ suc n
    → Ends (λ ys. length ys ≡ n) (pop_back xs)
pop_back-length n [] h = cc
pop_back-length n (x ∷ xs) h = ends (omega (arith, h, length-take (length xs) (x ∷ xs)))

pub remove_handler-IsWatching :
    (h : ℕ) (p : KqueuePoller)
    → IsWatching p
    → lookup (p.store h).handle p.event_handler_map ≡ some h
    → Ends IsWatching (remove_handler h p)
unfolding remove_handler
remove_handler-IsWatching h p v mapped =
    let e = p.store h in
    let fewer = length-erase e.handle h p.event_handler_map mapped in
    rw mapped (
      Ends-then
        (pop_back-length (length (erase e.handle p.event_handler_map)) p.events
          (omega (arith, fewer, v.entries)))
        λ events shorter. ends (record {
          keys = IsMap-erase e.handle p.event_handler_map v.keys;
          entries = shorter;
          shown = AllShown-erase e p.changes p.event_handler_map p.store v.keys v.shown;
        }))

-- What the clients of a poller call.
pub data Op : Type 0 where
  register : ℕ → Op
  change : Change → ℕ → Op
  remove : ℕ → Op

abbrev pub perform : Op → KqueuePoller → Outcome KqueuePoller
perform (register h) p = register_handler h p
perform (change c h) p = change_interest c h p
perform (remove h) p = remove_handler h p

-- A handler is registered for a descriptor that is not, and changed and removed while it is.
abbrev pub Allowed : Op → KqueuePoller → Type 0
Allowed (register h) p = lookup (p.store h).handle p.event_handler_map ≡ none
Allowed (change c h) p = lookup (p.store h).handle p.event_handler_map ≡ some h
Allowed (remove h) p = lookup (p.store h).handle p.event_handler_map ≡ some h

-- Whichever operation the poller for kqueue is asked for, with a handler whose descriptor is not
-- registered, or that is registered where it is changed or removed: the call ends, and the kernel
-- still watches every event that a registered handler waits for, if it did before.
pub perform-IsWatching :
    (op : Op) (p : KqueuePoller) → IsWatching p → Allowed op p → Ends IsWatching (perform op p)
perform-IsWatching (register h) p v allowed = register_handler-IsWatching h p v allowed
perform-IsWatching (change c h) p v allowed = change_interest-IsWatching c h p v allowed
perform-IsWatching (remove h) p v allowed = remove_handler-IsWatching h p v allowed
