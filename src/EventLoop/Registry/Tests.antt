-- ===== src/EventLoop/Registry/Tests.antt =====
-- A loop that watches one descriptor.
use qg_server.Common.{
  ℕ, ◌≡◌, refl, inl, inr, true, Bool-cases, ==_iff, arith, [], ◌∷◌, none, some, Ends, get_elem?,
  ◌==◌, if◌then◌else◌,
}
use qg_server.Pollpoller.Interest.{Interest, View, add_watch, change_watch, drop_watch}
use qg_server.EventLoop.Registry.{write_on}
use qg_server.EventLoop.Registry.Refines.{
  register, change, remove, perform_all, registers, changes, removes, finished, step, Implements,
  perform_all-Implements,
}
use qg_server.EventHandler.{event_none, event_read}
use qg_server.Pollpoller.Tests.{watched, one_watched, one_watched-IsIndexed}
use qg_server.EventLoop.Registry.{Registry, register_handler, update_handler, remove_handler}
use qg_server.EventLoop.Registry.Watching.{
  Watches, register_handler-Watches, update_handler-Watches, remove_handler-Watches,
}

abbrev pub one_handler : Registry
one_handler = record { handler_map = one_watched.event_handler_map; poller = one_watched }

pub one_handler-Watches : Watches one_handler
one_handler-Watches = record { indexed = one_watched-IsIndexed; same = λ fd. refl }

register_handler-Watches_example :
    Ends (λ s. Watches s × (s.handler_map 9 ≡ some 1)) (register_handler 1 one_handler)
register_handler-Watches_example =
    register_handler-Watches 1 one_handler one_handler-Watches refl refl

update_handler-Watches_example :
    Ends
      (λ s.
        Watches s
        × (s.handler_map ≡ one_handler.handler_map)
        × (get_elem? s.poller.fds 0
            ≡ some (record watched { events = event_read; revents = event_none })))
      (update_handler 0 one_handler)
update_handler-Watches_example =
    update_handler-Watches 0 0 one_handler watched one_handler-Watches refl refl refl

remove_handler-Watches_example :
    Ends (λ s. Watches s × (s.handler_map 4 ≡ none)) (remove_handler 0 one_handler)
remove_handler-Watches_example =
    remove_handler-Watches 0 0 one_handler watched one_handler-Watches refl refl refl refl

-- The table that `one_handler` implements.
abbrev pub table : Interest
table = record {
  watched = λ fd.
      if fd == 4 then some (record { handler = 0; events = event_read; quiet = true }) else none;
  handle = λ h. if h == 0 then 4 else 9;
  wanted = λ h. event_read;
  used = λ h. h == 0;
}

table-View : (fd : ℕ) → View one_watched fd (table.watched fd)
table-View fd = elim (Bool-cases (fd == 4)) [
  | inl e ↦
      let same : fd ≡ 4 = (==_iff fd 4).0 e in
      rw same (record {
        slot = 0;
        entry = watched;
        mapped = refl;
        handle = refl;
        index = refl;
        here = refl;
        fd_of = refl;
        events = refl;
        quiet = refl;
      })
  | inr e ↦ let out : one_watched.event_handler_map fd ≡ none = rw e in rw e out
]

pub one_handler-Implements : Implements one_handler table
one_handler-Implements = record {
  watches = one_handler-Watches;
  shows = record {
    indexed = one_watched-IsIndexed;
    view = table-View;
    handles = λ h. ground arith;
    wanted = λ h. ground arith;
    unused = λ h e. ground (arith, e);
  };
}

abbrev both : Interest
both = add_watch 1 table

abbrev writing : Interest
writing = change_watch 1 (record event_read { write = true }) both

perform_all-Implements_example :
    Ends
      (λ q. Implements q (drop_watch 0 writing))
      (perform_all (register 1 ∷ change write_on 1 ∷ remove 0 ∷ []) one_handler)
perform_all-Implements_example = perform_all-Implements one_handler one_handler-Implements (
    step (registers 1 refl refl) (
      step
        (changes write_on 1 (record { handler = 1; events = event_read; quiet = true }) refl refl)
        (step (removes 0 (record { handler = 0; events = event_read; quiet = true }) refl refl refl)
          finished)))
