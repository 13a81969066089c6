-- ===== src/Pollpoller/Wait.antt =====
-- `Pollpoller::Wait` of src/core/poll/Pollpoller.cpp. `poll` is the system call: by the descriptors,
-- how many of them it looks at, and the timeout, it gives its return value and the events that it
-- stored for the first descriptors, in order.
pub mod Found
pub mod Marked
use qg_server.Common.{
  ℕ, zero, suc, ◌+◌, ◌-◌, ◌%◌, ◌^◌, Bool, true, false, List, [], ◌∷◌, Option, none, some, Outcome,
  done, ◌>>=◌, or_fault, ltb, if◌then◌else◌, length,
}
use qg_server.Common.Int.{ℤ, pos, negsuc, ◌-ℤ◌, ltb_ℤ, eq_ℤ}
use qg_server.TimeStamp
use qg_server.TimeStamp.{TimeStamp}
use qg_server.EventHandler.{Events, EventHandler, set_revents}
use qg_server.Pollpoller.{PollFd, Pollpoller, store_at, no_events}

-- The int that a 64-bit integer is stored into.
abbrev int_of_word : ℕ → ℤ
int_of_word w = if ltb w (2 ^ 31) then pos w else negsuc (2 ^ 32 - 1 - w)

abbrev pub to_int : ℤ → ℤ
to_int (pos n) = int_of_word (n % 2 ^ 32)
to_int (negsuc n) = int_of_word (2 ^ 32 - 1 - n % 2 ^ 32)

unfoldable pub wait_time : TimeStamp → ℤ
wait_time time_stamp =
    if TimeStamp.eq time_stamp TimeStamp.epoch
    then negsuc 0
    else to_int (TimeStamp.to_milliseconds time_stamp)

-- How many descriptors poll looks at.
abbrev pub poll_size : ℤ → ℕ → ℕ
poll_size (negsuc k) size = size
poll_size (pos k) size = if ltb size k then size else k

-- The descriptors once poll has stored the events it found.
abbrev pub mark : List Events → List PollFd → List PollFd
mark [] fds = fds
mark (e ∷ es) [] = []
mark (e ∷ es) (x ∷ fds) = record x { revents = e } ∷ mark es fds

-- The loop over the descriptors, with what is left of `n`: the handlers whose events were found.
module _ (handlers : ℕ → Option ℕ) where
  unfoldable pub collect :
      List PollFd → ℤ → (ℕ → EventHandler) → Outcome ((ℕ → EventHandler) × List ℕ)
  collect [] n store = done (store, [])
  collect (x ∷ fds) n store =
      let left : ℤ = n -ℤ pos 1 in
      let skip : Outcome ((ℕ → EventHandler) × List ℕ) =
        let more = collect fds n store in if eq_ℤ n (pos 0) then done (store, []) else more in
      let take_it : Outcome ((ℕ → EventHandler) × List ℕ) = do
        h ← or_fault (handlers x.fd)
        let found = store_at store h (set_revents x.revents (store h))
        let more = collect fds left found
        (after, rest) ← if eq_ℤ left (pos 0) then done (found, []) else more
        done (after, h ∷ rest)
      in if no_events x.revents then skip else take_it

unfoldable pub wait :
    (List PollFd → ℕ → ℤ → ℤ × List Events)
    → ℤ
    → TimeStamp
    → Pollpoller
    → Outcome (Pollpoller × List ℕ)
unfolding collect wait_time
wait poll sz time_stamp p = do
  let called : ℤ × List Events = poll p.fds (poll_size sz (length p.fds)) (wait_time time_stamp)
  let marked = mark called.1 p.fds
  (store, found) ← collect p.event_handler_map marked called.0 p.store
  done (record p { fds = marked; store = store }, found)
