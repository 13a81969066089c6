-- ===== src/EventHandler/Dispatch.antt =====
-- `EventHandler::HandleEvent`: which callbacks an event runs.
use mathlib.Core.List.{append-nil, mem-cons_self}
use qg_server.Common.{
  ℕ, ◌≡◌, ap, ◌∙◌, Bool, true, false, Bool-cases, inl, inr, ◌&&◌, List, [], ◌∷◌, ◌++◌, Mem, Option,
  some, if◌then◌else◌,
}
use qg_server.EventHandler.{
  Events, EventHandler, set_revents, handle_event, call, on_write, on_error,
}

module _ (run : ℕ → EventHandler → EventHandler)
    (same : (cb : ℕ) (g : EventHandler) → run cb g ≡ g) where
  step_runs :
      (h : EventHandler) (ran : List ℕ) (o : Option ℕ) (c : ℕ) (b : Bool)
      → o ≡ some c
      → (if b then call run o (h, ran) else (h, ran)) ≡ (h, ran ++ (if b then c ∷ [] else []))
  step_runs h ran o c true e = rw e (rw (same c h))
  step_runs h ran o c false e = rw append-nil

  -- A handler that has the three callbacks runs a callback exactly when its event was found and is
  -- waited for, in the order read, write, error; the error callback runs without being waited for.
  -- The callbacks here leave the handler as it is.
  pub handle_event_runs :
      (h : EventHandler) (r w e : ℕ)
      → h.read_call_back ≡ some r
      → h.write_call_back ≡ some w
      → h.error_call_back ≡ some e
      → handle_event run h ≡ (
        h,
        (if h.revents.read && h.ievents.read then r ∷ [] else [])
            ++ (if h.revents.write && h.ievents.write then w ∷ [] else [])
            ++ (if h.revents.error then e ∷ [] else []),
      )
  unfolding handle_event
  handle_event_runs h r w e hr hw he =
      let read_due = h.revents.read && h.ievents.read in
      let write_due = h.revents.write && h.ievents.write in
      let first : List ℕ = if read_due then r ∷ [] else [] in
      let second : List ℕ = if write_due then w ∷ [] else [] in
      ap (λ s. on_error run (on_write run s)) (step_runs h [] h.read_call_back r read_due hr)
      ∙ ap (on_error run) (step_runs h first h.write_call_back w write_due hw)
      ∙ step_runs h (first ++ second) h.error_call_back e h.revents.error he

  -- For callbacks that leave the handler as it is, what the poller found is never cleared: once
  -- the descriptor was found to be readable, a later event of any kind runs the read callback
  -- again, as long as reading is waited for.
  pub old_event_runs :
      (h : EventHandler) (r w e : ℕ) (before now : Events)
      → h.read_call_back ≡ some r
      → h.write_call_back ≡ some w
      → h.error_call_back ≡ some e
      → h.ievents.read ≡ true
      → before.read ≡ true
      → Mem r (handle_event run (set_revents now (handle_event run (set_revents before h)).0)).1
  old_event_runs h r w e before now hr hw he hi hb =
      let earlier = set_revents before h in
      rw (handle_event_runs earlier r w e hr hw he) (
        rw (handle_event_runs (set_revents now earlier) r w e hr hw he)
          (elim (Bool-cases h.revents.read) [
            | inl f ↦ rw (f, hi) mem-cons_self
            | inr f ↦ rw (f, hi, hb) mem-cons_self
          ]))
