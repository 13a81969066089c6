-- ===== src/Net/Passive/Balance.antt =====
-- Which descriptors `QGInetPassiveSocket` leaves open, and which address it takes.
use qg_server.Common.{
  ℕ, ◌+◌, ◌≡◌, refl, ap, ◌∙◌, inl, inr, Bool, true, false, not, ◌&&◌, Bool-cases, ==_iff, List, [],
  ◌∷◌, ◌++◌, Option, none, some, ◌==◌, if◌then◌else◌, arith,
}
use qg_server.Net.Passive.{
  Attempt, NetStep, opened, closed, free_addresses, Walk, bound, over, gave_up, walk, try_address,
  conclude, inet_passive_socket,
}

abbrev remove : ℕ → List ℕ → List ℕ
remove n [] = []
remove n (m ∷ ms) = if m == n then ms else m ∷ remove n ms

-- The descriptors that are open after a trace, the newest first.
abbrev pub open_after : List NetStep → List ℕ → List ℕ
open_after [] fds = fds
open_after (opened n ∷ steps) fds = open_after steps (n ∷ fds)
open_after (closed n ∷ steps) fds = open_after steps (remove n fds)
open_after (free_addresses ∷ steps) fds = open_after steps fds

-- How often the addresses are released.
abbrev pub releases : List NetStep → ℕ
releases [] = 0
releases (free_addresses ∷ steps) = 1 + releases steps
releases (opened n ∷ steps) = releases steps
releases (closed n ∷ steps) = releases steps

abbrev held : Walk → List ℕ → List ℕ
held (bound n) fds = n ∷ fds
held over fds = fds
held gave_up fds = fds

abbrev released : Walk → ℕ
released (bound n) = 0
released over = 0
released gave_up = 1

remove_head : (n : ℕ) (fds : List ℕ) → remove n (n ∷ fds) ≡ fds
remove_head n fds = let e : (n == n) ≡ true = (==_iff n n).1 refl in rw e

-- What the loop leaves open, and how often it has released the addresses.
record Tidy (w : Walk × List NetStep) : Type 0 where
  open_fds : (fds : List ℕ) → open_after w.1 fds ≡ held w.0 fds
  released_times : releases w.1 ≡ released w.0

try_address-Tidy :
    (do_listen : Bool) (sfd : Option ℕ) (reuses binds : Bool) (further : Walk × List NetStep)
    → Tidy further
    → Tidy (try_address do_listen sfd reuses binds further)
unfolding try_address
try_address-Tidy do_listen none reuses binds further h = h
try_address-Tidy do_listen (some n) reuses binds further h =
    elim (Bool-cases (do_listen && not reuses)) [
      | inl e ↦ rw e (record { open_fds = remove_head n; released_times = omega arith })
      | inr e ↦ rw e (elim (Bool-cases binds) [
        | inl f ↦ rw f (record { open_fds = λ fds. refl; released_times = refl })
        | inr f ↦ rw f (record {
          open_fds = λ fds. ap (open_after further.1) (remove_head n fds) ∙ h.open_fds fds;
          released_times = h.released_times;
        })
      ])
    ]

walk-Tidy : (do_listen : Bool) (addresses : List Attempt) → Tidy (walk do_listen addresses)
unfolding walk
walk-Tidy do_listen [] = record { open_fds = λ fds. refl; released_times = refl }
walk-Tidy do_listen (a ∷ rest) =
    try_address-Tidy do_listen a.sfd a.reuses a.binds (walk do_listen rest)
      (walk-Tidy do_listen rest)

open_after-end :
    (steps : List NetStep) (fds : List ℕ)
    → open_after (steps ++ free_addresses ∷ []) fds ≡ open_after steps fds
open_after-end [] fds = refl
open_after-end (opened n ∷ steps) fds = open_after-end steps (n ∷ fds)
open_after-end (closed n ∷ steps) fds = open_after-end steps (remove n fds)
open_after-end (free_addresses ∷ steps) fds = open_after-end steps fds

releases-end : (steps : List NetStep) → releases (steps ++ free_addresses ∷ []) ≡ releases steps + 1
releases-end [] = omega arith
releases-end (opened n ∷ steps) = releases-end steps
releases-end (closed n ∷ steps) = releases-end steps
releases-end (free_addresses ∷ steps) = omega (arith, releases-end steps)

-- What is open once the call returned: the descriptor that it returns, if any.
abbrev pub with_result : Option ℕ → List ℕ → List ℕ
with_result none fds = fds
with_result (some n) fds = n ∷ fds

conclude-balanced :
    (do_listen listens : Bool) (w : Walk × List NetStep) (fds : List ℕ)
    → (do_listen && not listens) ≡ false
    → Tidy w
    → let r = conclude do_listen listens w in
      (open_after r.1 fds ≡ with_result r.0 fds) × (releases r.1 ≡ 1)
unfolding conclude
conclude-balanced do_listen listens (gave_up, trace) fds e h = (h.open_fds fds, h.released_times)
conclude-balanced do_listen listens (over, trace) fds e h = (
  open_after-end trace fds ∙ h.open_fds fds,
  releases-end trace ∙ omega (arith, h.released_times),
)
conclude-balanced do_listen listens (bound n, trace) fds e h = rw e (
  open_after-end trace fds ∙ h.open_fds fds,
  releases-end trace ∙ omega (arith, h.released_times),
)

-- Where listen is not asked for or does not fail, the descriptors that are open afterwards are
-- those that were open before and the one that is returned, and the addresses that were found are
-- released once.
pub inet_passive_socket_balanced :
    (addresses : List Attempt) (do_listen listens : Bool) (fds : List ℕ)
    → (do_listen && not listens) ≡ false
    → let r = inet_passive_socket (some addresses) do_listen listens in
      (open_after r.1 fds ≡ with_result r.0 fds) × (releases r.1 ≡ 1)
unfolding inet_passive_socket
inet_passive_socket_balanced addresses do_listen listens fds e =
    conclude-balanced do_listen listens (walk do_listen addresses) fds e
      (walk-Tidy do_listen addresses)

conclude-leaks :
    (w : Walk × List NetStep) (n : ℕ) (fds : List ℕ)
    → Tidy w
    → w.0 ≡ bound n
    → let r = conclude true false w in (r.0 ≡ none) × (open_after r.1 fds ≡ n ∷ fds)
unfolding conclude
conclude-leaks (gave_up, trace) n fds h e = cc
conclude-leaks (over, trace) n fds h e = cc
conclude-leaks (bound m, trace) n fds h e =
    (refl, open_after-end trace fds ∙ h.open_fds fds ∙ ap (λ (w : Walk). held w fds) e)

-- Where listen fails on a descriptor that was bound, the call returns -1 and leaves the descriptor
-- open.
pub listen_failure_leaks :
    (addresses : List Attempt) (n : ℕ) (fds : List ℕ)
    → (walk true addresses).0 ≡ bound n
    → let r = inet_passive_socket (some addresses) true false in
      (r.0 ≡ none) × (open_after r.1 fds ≡ n ∷ fds)
unfolding inet_passive_socket
listen_failure_leaks addresses n fds e =
    conclude-leaks (walk true addresses) n fds (walk-Tidy true addresses) e

-- The descriptors that could be bound, in the order of the addresses.
abbrev usable_one : Option ℕ → Bool → List ℕ → List ℕ
usable_one none binds rest = rest
usable_one (some n) binds rest = if binds then n ∷ rest else rest

abbrev pub usable : List Attempt → List ℕ
usable [] = []
usable (a ∷ rest) = usable_one a.sfd a.binds (usable rest)

abbrev pub head : List ℕ → Option ℕ
head [] = none
head (n ∷ ns) = some n

abbrev pub AllReuse : List Attempt → Type 0
AllReuse [] = Unit {0}
AllReuse (a ∷ rest) = (a.reuses ≡ true) × AllReuse rest

abbrev found : Walk → Option ℕ
found (bound n) = some n
found over = none
found gave_up = none

walk-finds :
    (addresses : List Attempt)
    → AllReuse addresses
    → found (walk true addresses).0 ≡ head (usable addresses)
unfolding walk
walk-finds [] h = refl
walk-finds (a ∷ rest) h =
    one a.sfd a.reuses a.binds (walk true rest) (usable rest) h.0 (walk-finds rest h.1)
  where
    one :
        (sfd : Option ℕ) (reuses binds : Bool) (further : Walk × List NetStep) (ns : List ℕ)
        → reuses ≡ true
        → found further.0 ≡ head ns
        → found (try_address true sfd reuses binds further).0 ≡ head (usable_one sfd binds ns)
    one none reuses binds further ns e same = same
    one (some n) reuses true further ns e same = rw e
    one (some n) reuses false further ns e same = rw e same

conclude-found : (w : Walk × List NetStep) → (conclude true true w).0 ≡ found w.0
unfolding conclude
conclude-found (gave_up, trace) = refl
conclude-found (over, trace) = refl
conclude-found (bound n, trace) = refl

-- Where SO_REUSEADDR can be set on every socket and listen succeeds, the call returns the first of
-- the descriptors that can be bound, and -1 where there is none.
pub inet_passive_socket_first :
    (addresses : List Attempt)
    → AllReuse addresses
    → (inet_passive_socket (some addresses) true true).0 ≡ head (usable addresses)
unfolding inet_passive_socket
inet_passive_socket_first addresses h =
    conclude-found (walk true addresses) ∙ walk-finds addresses h
