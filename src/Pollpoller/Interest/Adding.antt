-- ===== src/Pollpoller/Interest/Adding.antt =====
-- `Pollpoller::registerHandler` adds a descriptor to the view.
use mathlib.Core.Path.{subst}
use qg_server.Common.{
  ℕ, zero, suc, ◌≡◌, ◌≢◌, refl, sym, ap, ◌∙◌, inl, inr, true, false, Bool-cases, List, [], ◌∷◌,
  ◌++◌, none, some, done, Ends, ends, Ends-done, ◌==◌, ==_iff, get_elem?, length,
}
use qg_server.EventHandler.{event_none, EventHandler}
use qg_server.Pollpoller.{PollFd, Pollpoller, map_at, store_at, register_handler}
use qg_server.Pollpoller.Slots.{
  IsIndexed, register_handler-IsIndexed, map_at-here, map_at-other, store_at-here, store_at-other,
}
use qg_server.Pollpoller.Interest.{
  Watch, Interest, add_watch, Shown, View, Shows, View-keeps, View-assign,
}

get_elem?-before :
    (xs ys : List PollFd) (i : ℕ) (x : PollFd)
    → get_elem? xs i ≡ some x
    → get_elem? (xs ++ ys) i ≡ some x
get_elem?-before [] ys i x e = cc
get_elem?-before (z ∷ xs) ys zero x e = e
get_elem?-before (z ∷ xs) ys (suc i) x e = get_elem?-before xs ys i x e

get_elem?-last : (xs : List PollFd) (y : PollFd) → get_elem? (xs ++ y ∷ []) (length xs) ≡ some y
get_elem?-last [] y = refl
get_elem?-last (z ∷ xs) y = get_elem?-last xs y

-- A property of a handler that holds after a change of one handler.
pub store_at-all {ℓ} :
    {A : Type ℓ} (g : EventHandler → A) (st : ℕ → EventHandler) (h : ℕ) (e : EventHandler)
    → g e ≡ g (st h)
    → (k : ℕ) → g (store_at st h e k) ≡ g (st k)
store_at-all g st h e same k = elim (Bool-cases (k == h)) [
  | inl here ↦ let one : k ≡ h = (==_iff k h).0 here in rw (here, one) same
  | inr other ↦ rw other
]

module _ (h : ℕ) (p : Pollpoller) (s : Interest) (v : Shows p s) (new : s.used h ≡ false)
    (free : s.watched (s.handle h) ≡ none) where
  abbrev pub fd : ℕ
  fd = (p.store h).handle

  abbrev placed : EventHandler
  placed = record (p.store h) { index = some (length p.fds) }

  abbrev added : PollFd
  added = record { fd = fd; events = (p.store h).ievents; revents = event_none }

  abbrev grown : Pollpoller
  grown = record {
    fds = p.fds ++ added ∷ [];
    event_handler_map = map_at p.event_handler_map fd (some h);
    store = store_at p.store h placed;
  }

  pub unset : (p.store h).index ≡ none
  unset = v.unused h new

  pub free_there : p.event_handler_map fd ≡ none
  free_there =
      ap p.event_handler_map (v.handles h) ∙ subst (View p (s.handle h)) free (v.view (s.handle h))

  register_handler-done : register_handler h p ≡ done grown
  unfolding register_handler
  register_handler-done = rw (unset, register_handler)

  grown-IsIndexed : IsIndexed grown
  grown-IsIndexed =
      Ends-done
        (rw register_handler-done at (register_handler-IsIndexed h p v.indexed unset free_there))

  new-Shown : Shown grown fd (record { handler = h; events = (p.store h).ievents; quiet = true })
  new-Shown = record {
    slot = length p.fds;
    entry = added;
    mapped = map_at-here p.event_handler_map fd (some h);
    handle = ap (λ (g : EventHandler). g.handle) (store_at-here p.store h placed);
    index = ap (λ (g : EventHandler). g.index) (store_at-here p.store h placed);
    here = get_elem?-last p.fds added;
    fd_of = refl;
    events = refl;
    quiet = refl;
  }

  old-Shown : (j : ℕ) → j ≢ fd → (w : Watch) → Shown p j w → Shown grown j w
  old-Shown j apart w old =
      let index = old.index in
      let own = unset in
      let same = store_at-other p.store h placed w.handler (λ one. cc) in
      record {
        slot = old.slot;
        entry = old.entry;
        mapped = map_at-other p.event_handler_map fd (some h) j apart ∙ old.mapped;
        handle = ap (λ (g : EventHandler). g.handle) same ∙ old.handle;
        index = ap (λ (g : EventHandler). g.index) same ∙ old.index;
        here = get_elem?-before p.fds (added ∷ []) old.slot old.entry old.here;
        fd_of = old.fd_of;
        events = old.events;
        quiet = old.quiet;
      }

  grown-View : (j : ℕ) → View grown j ((add_watch h s).watched j)
  grown-View =
      View-assign grown s.watched (s.handle h)
        (some (record { handler = h; events = s.wanted h; quiet = true }))
        (rw (sym (v.handles h), sym (v.wanted h)) new-Shown)
        λ j apart.
          let away : j ≢ fd = λ e. apart (e ∙ v.handles h) in
          View-keeps p grown j (s.watched j) (map_at-other p.event_handler_map fd (some h) j away)
            (old-Shown j away) (v.view j)

  grown-unused : (k : ℕ) → (add_watch h s).used k ≡ false → (grown.store k).index ≡ none
  grown-unused k e = elim (Bool-cases (k == h)) [
    | inl here ↦ let clash : true ≡ false = rw here at e in cc
    | inr other ↦ rw other (v.unused k (rw other at e))
  ]

  -- A handler that was never registered, for a descriptor that is not watched: the descriptor is
  -- watched for the events that the handler waits for, and the rest of the view is as before.
  pub register_handler-Shows : Ends (λ q. Shows q (add_watch h s)) (register_handler h p)
  register_handler-Shows = rw register_handler-done (
      ends (record {
        indexed = grown-IsIndexed;
        view = grown-View;
        handles = λ k.
            store_at-all (λ (g : EventHandler). g.handle) p.store h placed refl k ∙ v.handles k;
        wanted = λ k.
            store_at-all (λ (g : EventHandler). g.ievents) p.store h placed refl k ∙ v.wanted k;
        unused = grown-unused;
      }))
