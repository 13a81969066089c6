-- ===== src/Epoll/Tests.antt =====
-- Epoll as an association list of the descriptors that are watched.
use qg_server.Common.{
  ℕ, zero, suc, ◌≡◌, refl, ◌⊎◌, Bool, true, false, List, [], ◌∷◌, Option, none, some, done, length,
}
use qg_server.Common.Int.{ℤ, pos, negsuc}
use qg_server.EventHandler.{Events, event_read}
use qg_server.Pollpoller.Interest.{assign}
use qg_server.Epoll.{Epoll, EventStatus, CtlOp, ctl_add, ctl_mod, ctl_del, rounds, wait}
use qg_server.Epoll.Waiting.{First, Never, wait-cases}

abbrev Table : Type 0
Table = ℕ → Option Events

abbrev ctl_found : CtlOp → ℕ → Events → Option Events → Table → Bool × Table
ctl_found ctl_add fd e none t = (true, assign t fd (some e))
ctl_found ctl_add fd e (some old) t = (false, t)
ctl_found ctl_mod fd e none t = (false, t)
ctl_found ctl_mod fd e (some old) t = (true, assign t fd (some e))
ctl_found ctl_del fd e none t = (false, t)
ctl_found ctl_del fd e (some old) t = (true, assign t fd none)

abbrev readable : EventStatus
readable = record { fd = 4; revents = event_read }

-- The first call of epoll_wait fails, the second ends with its timeout.
abbrev reports : ℕ → ℤ × List EventStatus
reports zero = (negsuc 0, [])
reports (suc zero) = (pos 0, [])
reports (suc (suc n)) = (pos 1, readable ∷ [])

abbrev tables : Epoll Table
tables = record { ctl = λ op fd e t. ctl_found op fd e (t fd) t; wait = λ t size n. reports n }

abbrev nothing : Table
nothing fd = none

stored : (n : ℕ) → rounds (reports n).0 ≡ length (reports n).1
stored zero = refl
stored (suc zero) = refl
stored (suc (suc n)) = refl

wait-cases_example :
    First reports 9 (wait tables 9 nothing) ⊎ Never reports 9 (wait tables 9 nothing)
wait-cases_example = wait-cases tables nothing stored 9

wait_third : wait tables 9 nothing ≡ done (readable ∷ [], 3)
unfolding wait
wait_third = refl
