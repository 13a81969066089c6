-- ===== src/EventHandler.antt =====
-- src/core/event_handler.h and event_handler.cpp: the events that a descriptor waits for, those
-- that the poller found, and the callbacks they lead to. A mask of events is the three bits that
-- the server names; `other` is any further bit of the mask. `index` is `none` for -1. A callback
-- is a number; what running one does to the handler is an argument.
pub mod Dispatch
use qg_server.Common.{
  ℕ, Bool, true, false, ◌&&◌, ◌||◌, List, [], ◌∷◌, ◌++◌, Option, none, some, if◌then◌else◌,
}

pub record Events : Type 0 where
  pub read : Bool
  pub write : Bool
  pub error : Bool
  pub other : Bool

abbrev pub event_none : Events
event_none = record { read = false; write = false; error = false; other = false }

abbrev pub event_read : Events
event_read = record event_none { read = true }

abbrev pub event_write : Events
event_write = record event_none { write = true }

abbrev pub event_error : Events
event_error = record event_none { error = true }

abbrev pub event_all : Events
event_all = record { read = true; write = true; error = true; other = false }

-- `|=`
abbrev pub join : Events → Events → Events
join a b = record {
  read = a.read || b.read;
  write = a.write || b.write;
  error = a.error || b.error;
  other = a.other || b.other;
}

pub record EventHandler : Type 0 where
  pub handle : ℕ
  pub ievents : Events
  pub revents : Events
  pub index : Option ℕ
  pub read_call_back : Option ℕ
  pub write_call_back : Option ℕ
  pub error_call_back : Option ℕ

-- EventHandler::EventHandler
abbrev pub new_event_handler : ℕ → Events → EventHandler
new_event_handler fd ie = record {
  handle = fd;
  ievents = ie;
  revents = event_none;
  index = none;
  read_call_back = none;
  write_call_back = none;
  error_call_back = none;
}

abbrev pub set_ievents : Events → EventHandler → EventHandler
set_ievents iev h = record h { ievents = join h.ievents iev }

abbrev pub set_revents : Events → EventHandler → EventHandler
set_revents rev h = record h { revents = join h.revents rev }

-- Each of the following is followed by update(), which hands the handler to its loop.
abbrev pub enable_read : EventHandler → EventHandler
enable_read h = set_ievents event_read h

abbrev pub enable_write : EventHandler → EventHandler
enable_write h = set_ievents event_write h

abbrev pub enable_error : EventHandler → EventHandler
enable_error h = set_ievents event_error h

abbrev pub enable_all : EventHandler → EventHandler
enable_all h = set_ievents event_all h

abbrev pub disable_read : EventHandler → EventHandler
disable_read h = record h { ievents = record h.ievents { read = false } }

abbrev pub disable_write : EventHandler → EventHandler
disable_write h = record h { ievents = record h.ievents { write = false } }

abbrev pub disable_error : EventHandler → EventHandler
disable_error h = record h { ievents = record h.ievents { error = false } }

abbrev pub disable_all : EventHandler → EventHandler
disable_all h = record h { ievents = event_none }

abbrev pub is_reading : EventHandler → Bool
is_reading h = h.ievents.read

abbrev pub is_writing : EventHandler → Bool
is_writing h = h.ievents.write

abbrev pub is_readable : EventHandler → Bool
is_readable h = h.revents.read

abbrev pub is_writeable : EventHandler → Bool
is_writeable h = h.revents.write

abbrev pub is_error : EventHandler → Bool
is_error h = h.revents.error

-- A callback that is set is run. The numbers of those that ran are listed, oldest first.
abbrev pub call :
    (ℕ → EventHandler → EventHandler) → Option ℕ → EventHandler × List ℕ → EventHandler × List ℕ
call run none (h, ran) = (h, ran)
call run (some cb) (h, ran) = (run cb h, ran ++ cb ∷ [])

-- The three steps of HandleEvent.
abbrev pub on_read :
    (ℕ → EventHandler → EventHandler) → EventHandler × List ℕ → EventHandler × List ℕ
on_read run (h, ran) =
    if is_readable h && is_reading h then call run h.read_call_back (h, ran) else (h, ran)

abbrev pub on_write :
    (ℕ → EventHandler → EventHandler) → EventHandler × List ℕ → EventHandler × List ℕ
on_write run (h, ran) =
    if is_writeable h && is_writing h then call run h.write_call_back (h, ran) else (h, ran)

abbrev pub on_error :
    (ℕ → EventHandler → EventHandler) → EventHandler × List ℕ → EventHandler × List ℕ
on_error run (h, ran) = if is_error h then call run h.error_call_back (h, ran) else (h, ran)

-- EventHandler::HandleEvent
unfoldable pub handle_event :
    (ℕ → EventHandler → EventHandler) → EventHandler → EventHandler × List ℕ
handle_event run h = on_error run (on_write run (on_read run (h, [])))
