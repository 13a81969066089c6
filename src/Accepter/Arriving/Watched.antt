-- ===== src/Accepter/Arriving/Watched.antt =====
-- Every connection that was taken is watched by its loop.
use qg_server.Common.{
  ℕ, ◌<◌, take, ◌≡◌, ◌≢◌, refl, ◌∙◌, true, false, inl, inr, Bool-cases, ==_iff, List, [], ◌∷◌, ◌++◌,
  map, Option, none, some, Ends, ends, Ends-then, Ends-both, Ends-weaken, arith, ◌==◌,
  if◌then◌else◌,
}
use qg_server.Common.Maps.{lookup}
use qg_server.EventHandler.{event_read}
use qg_server.Pollpoller.Interest.{Interest, Watch}
use qg_server.EventLoop.Registry.{Registry}
use qg_server.EventLoop.Registry.Placing.{reading_table, start_reading-Implements}
use qg_server.EventLoop.Registry.Refines.{Implements}
use qg_server.Accepter.{Server, handle_read}
use qg_server.Accepter.Counting
use qg_server.Accepter.Counting.{handle_read-IsCounted}
use qg_server.Accepter.Counting.{IsStarted, get_next_loop-IsStarted, handle_new_con-IsCounted}
use qg_server.Accepter.Arriving.Taken.{
  AllNew, HaveNew, HaveNew-weaken, handle_read-HaveNew, handle_read-takes, keys, onto, room,
}
use qg_server.Accepter.Arriving.{Arrivals, connection_handler, open_connection, open_own}

-- A loop that knows nothing of a descriptor and of the handler of its connection.
abbrev pub IsNewTo : Arrivals → Interest → ℕ → Type 0
IsNewTo a t fd = (t.used (a.handler fd) ≡ false) × (t.watched fd ≡ none)

-- The table of a loop when it has run its functions.
abbrev own_table : Arrivals → ℕ → List (ℕ × ℕ) → Interest → Interest
own_table a loop [] t = t
own_table a loop (c ∷ connections) t =
    let before = own_table a loop connections t in
    if c.1 == loop then reading_table (a.handler c.0) (connection_handler a c.0) before else before

-- The connection of a descriptor is read if it was given to this loop.
abbrev pub watched_by : Arrivals → ℕ → ℕ → Option ℕ → Option Watch → Option Watch
watched_by a loop fd none before = before
watched_by a loop fd (some own) before =
    if own == loop
    then some (record { handler = a.handler fd; events = event_read; quiet = true })
    else before

module _ (a : Arrivals) (k fd : ℕ) (t : Interest) where
  abbrev opened : Interest
  opened = reading_table (a.handler k) (connection_handler a k) t

  opened_here :
      k ≡ fd
      → opened.watched fd
        ≡ some (record { handler = a.handler fd; events = event_read; quiet = true })
  opened_here same = rw same (ground arith)

  opened_elsewhere : fd ≢ k → opened.watched fd ≡ t.watched fd
  opened_elsewhere apart = ground (arith, apart)

  opened_used : a.handler fd ≢ a.handler k → opened.used (a.handler fd) ≡ t.used (a.handler fd)
  opened_used apart = ground (arith, apart)

module _ (a : Arrivals) (loop : ℕ) where
  own_table-watched :
      (new : ℕ → Type 0) (connections : List (ℕ × ℕ)) (t : Interest) (fd : ℕ)
      → HaveNew new connections
      → (own_table a loop connections t).watched fd
        ≡ watched_by a loop fd (lookup fd connections) (t.watched fd)
  own_table-watched new [] t fd v = refl
  own_table-watched new ((k, own) ∷ connections) t fd (out, fresh, v) =
      let rest = own_table-watched new connections t fd v in
      elim (Bool-cases (k == fd)) [
        | inl here ↦
            let same : k ≡ fd = (==_iff k fd).0 here in
            let gone : lookup fd connections ≡ none = rw same at out in
            elim (Bool-cases (own == loop)) [
              | inl mine ↦
                  rw (here, mine) (opened_here a k fd (own_table a loop connections t) same)
              | inr not_mine ↦ rw (here, not_mine) (rest ∙ rw gone refl)
            ]
        | inr other ↦ elim (Bool-cases (own == loop)) [
          | inl mine ↦
              let apart : fd ≢ k = ground (arith, other) in
              rw (mine, other)
                (opened_elsewhere a k fd (own_table a loop connections t) apart ∙ rest)
          | inr not_mine ↦ rw (not_mine, other) rest
        ]
      ]

  own_table-used :
      (connections : List (ℕ × ℕ)) (t : Interest) (fd : ℕ)
      → ((x y : ℕ) → a.handler x ≡ a.handler y → x ≡ y)
      → lookup fd connections ≡ none
      → (own_table a loop connections t).used (a.handler fd) ≡ t.used (a.handler fd)
  own_table-used [] t fd apart out = refl
  own_table-used ((k, own) ∷ connections) t fd apart out =
      let rest = own_table-used connections t fd apart in
      elim (Bool-cases (k == fd)) [
        | inl here ↦ let clash : some own ≡ none = rw here at out in cc
        | inr other ↦
            let apart_too : a.handler fd ≢ a.handler k = λ e. ground (arith, other, apart fd k e) in
            let same = rest (rw other at out) in
            elim (Bool-cases (own == loop)) [
              | inl mine ↦
                  rw mine (opened_used a k fd (own_table a loop connections t) apart_too ∙ same)
              | inr not_mine ↦ rw not_mine same
            ]
      ]

  module _ (apart : (x y : ℕ) → a.handler x ≡ a.handler y → x ≡ y) (r : Registry) (t : Interest)
      (i : Implements r t) where
    open_own-Implements :
        (connections : List (ℕ × ℕ))
        → HaveNew (IsNewTo a t) connections
        → Ends (λ q. Implements q (own_table a loop connections t)) (open_own a loop connections r)
    unfolding open_own open_connection
    open_own-Implements [] v = ends i
    open_own-Implements ((k, own) ∷ connections) (out, (unused, free), v) =
        Ends-then (open_own-Implements connections v) λ q j.
          let before = own_table a loop connections t in
          elim (Bool-cases (own == loop)) [
            | inl mine ↦
                let new = own_table-used connections t k apart out ∙ unused in
                let still_free : before.watched k ≡ none =
                  own_table-watched (IsNewTo a t) connections t k v ∙ rw out free in
                rw mine (
                  start_reading-Implements (a.handler k) (connection_handler a k) q before j new
                    still_free refl refl)
            | inr not_mine ↦ rw not_mine (ends j)
          ]

-- What a loop watches, once it has run its functions for the connections of a server.
pub record Reads (a : Arrivals) (loop : ℕ) (before : Interest) (connections : List (ℕ × ℕ))
    (r : Registry) : Type 0 where
  pub table : Interest
  pub implements : Implements r table
  pub watched :
      (fd : ℕ) → table.watched fd ≡ watched_by a loop fd (lookup fd connections) (before.watched fd)

-- A server counts its connections, one above the high-water mark at most, and its pool was started.
-- No loop has run the functions for its connections yet, the handlers of different descriptors are
-- apart, and the descriptors that come now are not 0, are different from each other and from those
-- before, and new to every loop. However many come, the accepter's call ends once accept fails. It
-- has taken the first of them, as many as there is room for until the connections are one more than
-- the high-water mark, and their number still counts them. Then every loop can run its functions without a fault: it watches the
-- connections that were given to it, for reading, with their handlers, and else what it watched
-- before.
pub arrivals_watched :
    (a : Arrivals)
    → ((x y : ℕ) → a.handler x ≡ a.handler y → x ≡ y)
    → (loops : ℕ → Registry) (tables : ℕ → Interest) → ((l : ℕ) → Implements (loops l) (tables l))
    → (fds : List ℕ) (rest : List (Option ℕ)) (s : Server) → Counting.IsCounted s
    → AllNew (λ fd. (0 < fd) × ((l : ℕ) → IsNewTo a (tables l) fd)) s.connections fds
    → HaveNew (λ fd. (0 < fd) × ((l : ℕ) → IsNewTo a (tables l) fd)) s.connections
    → Ends
        (λ r.
          Counting.IsCounted r.0
          × (keys r.0.connections ≡ onto (take (room s) fds) (keys s.connections))
          × ((l : ℕ)
              → Ends
                  (Reads a l (tables l) r.0.connections)
                  (open_own a l r.0.connections (loops l))))
        (handle_read (map some fds ++ none ∷ rest) s)
arrivals_watched a apart loops tables i fds rest s c later v =
    let new = λ (fd : ℕ). (0 < fd) × ((l : ℕ) → IsNewTo a (tables l) fd) in
    Ends-weaken
      (Ends-both (handle_read-IsCounted fds rest s c) (
        Ends-both (handle_read-takes new fds rest s (λ fd f. f.0) c later)
          (handle_read-HaveNew new fds rest s c later v)))
      λ r (counted, (taken, have)). (
        counted,
        taken,
        λ l.
            let mine =
              HaveNew-weaken new (IsNewTo a (tables l)) r.0.connections (λ fd f. f.1 l) have in
            Ends-weaken
              (open_own-Implements a l apart (loops l) (tables l) (i l) r.0.connections mine)
              λ q j. record {
                table = own_table a l r.0.connections (tables l);
                implements = j;
                watched = λ fd.
                    own_table-watched a l (IsNewTo a (tables l)) r.0.connections (tables l) fd mine;
              },
      )
