-- ===== src/Pollpoller/Interest.antt =====
-- What a client of the poller sees: by descriptor, the handler and the events that it is watched
-- for. The operations of src/core/poll/Pollpoller.cpp implement this view.
pub mod Adding
pub mod Changing
pub mod Removing
use qg_server.Common.{
  ℕ, zero, suc, ◌-◌, ◌<◌, ◌≡◌, ◌≢◌, refl, sym, ap, ◌∙◌, inl, inr, Bool, true, false, Bool-cases,
  List, [], ◌∷◌, ◌++◌, Option, none, some, done, Ends, ends, ◌==◌, ==_iff, arith, get_elem?, set,
  take, length, if◌then◌else◌,
}
use qg_server.EventHandler.{Events, event_none, EventHandler}
use qg_server.Pollpoller.{
  PollFd, Pollpoller, map_at, store_at, no_events, register_handler, update_handler, remove_handler,
}
use qg_server.Pollpoller.Slots.{
  Slot, IsIndexed, register_handler-IsIndexed, remove_handler-IsIndexed, map_at-here, map_at-other,
  store_at-here, store_at-other,
}

-- A descriptor is watched: its handler, the events, and whether none has been found.
pub record Watch : Type 0 where
  pub handler : ℕ
  pub events : Events
  pub quiet : Bool

-- `handle h` is the descriptor of the handler `h`, `wanted h` the events that it waits for, and
-- `used h` whether it was ever registered.
pub record Interest : Type 0 where
  pub watched : ℕ → Option Watch
  pub handle : ℕ → ℕ
  pub wanted : ℕ → Events
  pub used : ℕ → Bool

abbrev pub assign {ℓ} : {A : Type ℓ} → (ℕ → A) → ℕ → A → ℕ → A
assign f k v j = if j == k then v else f j

abbrev pub add_watch : ℕ → Interest → Interest
add_watch h s = record s {
  watched =
      assign s.watched (s.handle h)
        (some (record { handler = h; events = s.wanted h; quiet = true }));
  used = assign s.used h true;
}

abbrev pub change_watch : ℕ → Events → Interest → Interest
change_watch h e s = record s {
  watched = assign s.watched (s.handle h) (some (record { handler = h; events = e; quiet = true }));
  wanted = assign s.wanted h e;
}

abbrev pub drop_watch : ℕ → Interest → Interest
drop_watch h s = record s { watched = assign s.watched (s.handle h) none }

-- The poller watches `fd` as `w` says.
pub record Shown (p : Pollpoller) (fd : ℕ) (w : Watch) : Type 0 where
  pub slot : ℕ
  pub entry : PollFd
  pub mapped : p.event_handler_map fd ≡ some w.handler
  pub handle : (p.store w.handler).handle ≡ fd
  pub index : (p.store w.handler).index ≡ some slot
  pub here : get_elem? p.fds slot ≡ some entry
  pub fd_of : entry.fd ≡ fd
  pub events : entry.events ≡ w.events
  pub quiet : no_events entry.revents ≡ w.quiet

abbrev pub View : Pollpoller → ℕ → Option Watch → Type 0
View p fd none = p.event_handler_map fd ≡ none
View p fd (some w) = Shown p fd w

pub record Shows (p : Pollpoller) (s : Interest) : Type 0 where
  pub indexed : IsIndexed p
  pub view : (fd : ℕ) → View p fd (s.watched fd)
  pub handles : (h : ℕ) → (p.store h).handle ≡ s.handle h
  pub wanted : (h : ℕ) → (p.store h).ievents ≡ s.wanted h
  pub unused : (h : ℕ) → s.used h ≡ false → (p.store h).index ≡ none

-- A descriptor that an operation leaves alone.
pub View-keeps :
    (p q : Pollpoller) (fd : ℕ) (o : Option Watch)
    → q.event_handler_map fd ≡ p.event_handler_map fd
    → ((w : Watch) → Shown p fd w → Shown q fd w)
    → View p fd o
    → View q fd o
View-keeps p q fd none same keep v = same ∙ v
View-keeps p q fd (some w) same keep v = keep w v

-- After a change at one descriptor.
pub View-assign :
    (q : Pollpoller) (watched : ℕ → Option Watch) (k : ℕ) (o : Option Watch)
    → View q k o
    → ((fd : ℕ) → fd ≢ k → View q fd (watched fd))
    → (fd : ℕ) → View q fd (assign watched k o fd)
View-assign q watched k o new others fd = elim (Bool-cases (fd == k)) [
  | inl e ↦ let same : fd ≡ k = (==_iff fd k).0 e in rw (e, same) new
  | inr e ↦ let apart : fd ≢ k = ground (arith, e) in rw e (others fd apart)
]
