-- ===== src/Http/Session/Exchanging.antt =====
-- A request that is read and answered, on a connection that was idle.
use mathlib.Core.List.{append-nil}
use qg_server.Common.{
  ◌≤◌, ◌≡◌, refl, sym, ap, ◌∙◌, Bool, true, false, not, ◌||◌, [], ◌∷◌, ◌++◌, inl, inr, Bool-cases,
  Outcome, ◌>>=◌, arith, length, map, is_empty, Ends, ends, Ends-then,
}
use qg_server.Common.Text.{Text}
use qg_server.TcpConnection.{write_complete}
use qg_server.Http.Request.{new_request}
use qg_server.Http.Server.{handle_write_complete}
use qg_server.Http.Response.Framing.{IsPlain}
use qg_server.Http.Session.{
  Session, Site, act_all, run_functor, run_first, read_event, write_events,
}
use qg_server.Http.Session.Sending.{Frame, takes_once, when_sent}
use qg_server.Http.Session.Answered.{
  IsIdle, Exchange, reads, taken, IsRequest, answer, Answered, read_event-Answered,
}

-- A request is read and answered, and what the server does once all was sent is run.
unfoldable pub exchange : {P : Type 0} → Site P → Exchange → Session P → Outcome (Session P)
exchange site x s =
    read_event site (reads x) s
    >>= run_first site (takes_once x.first)
    >>= write_events site (map takes_once x.later)
    >>= run_first site (takes_once 0)

-- A connection between two requests, and what became of it so far.
pub record Served {P : Type 0} (site : Site P) (text : Text) (is_shut : Bool) (s r : Session P)
    : Type 0 where
  pub idle : IsIdle r
  pub client : r.client ≡ text
  pub context : r.request ≡ new_request 0 site.garbage
  pub parser : r.parser ≡ site.init
  pub shut : r.is_shut ≡ is_shut
  pub closed : r.is_closed ≡ s.is_closed
  pub reading : r.connection.reading ≡ s.connection.reading
  pub told : r.connection.has_close_call_back ≡ s.connection.has_close_call_back

or-false : (b : Bool) → (b || false) ≡ b
or-false true = refl
or-false false = refl

or-true : (b : Bool) → (b || true) ≡ true
or-true true = refl
or-true false = refl

length_zero : (t : Text) → length t ≡ 0 → t ≡ []
length_zero [] e = refl
length_zero (c ∷ t) e = absurd (omega (arith, e))

-- The function that announces that all was sent.
complete :
    {P : Type 0} (site : Site P) (x : Exchange) (s r : Session P)
    → length (answer site x.filled) ≤ taken x
    → Answered site x s r
    → Ends
        (Served site
          (s.client ++ answer site x.filled)
          (s.is_shut || not (site.should_keep_alive site.init))
          s)
        (run_first site (takes_once 0) r)
unfolding run_first run_functor act_all handle_write_complete
complete {P} site x s r enough a =
    let w = a.sending in
    let empty : r.connection.write_buf ≡ [] =
      length_zero r.connection.write_buf (omega (arith, w.unsent, enough)) in
    let waits : r.pending ≡ write_complete [] ∷ [] = w.announced ∙ ap when_sent empty in
    let all : r.client ≡ s.client ++ answer site x.filled =
      sym (append-nil r.client) ∙ ap (λ (t : Text). r.client ++ t) (sym empty) ∙ w.kept in
    let still : r.connection.writing ≡ false =
      w.writing ∙ ap (λ (t : Text). not (is_empty t)) empty in
    let asked : site.should_keep_alive r.parser ≡ site.should_keep_alive site.init =
      ap (λ (f : Frame P). site.should_keep_alive f.parser) w.same in
    let served : (b t : Bool)
        → b ≡ t
        → Served site (s.client ++ answer site x.filled) t s
            (record r { pending = []; is_shut = b }) =
      λ b t shut. record {
        idle = record {
          read_buf = w.read_buf;
          write_buf = empty;
          writing = still;
          connected = w.connected;
          pending = refl;
        };
        client = all;
        context = ap (λ (f : Frame P). f.context) w.same;
        parser = ap (λ (f : Frame P). f.parser) w.same;
        shut = shut;
        closed = ap (λ (f : Frame P). f.closed) w.same;
        reading = ap (λ (f : Frame P). f.reading) w.same;
        told = ap (λ (f : Frame P). f.told) w.same;
      } in
    let unshut : r.is_shut ≡ s.is_shut = ap (λ (f : Frame P). f.shut) w.same in
    elim (Bool-cases (site.should_keep_alive site.init)) [
      | inl keep ↦
          rw (waits, asked, keep)
            (ends (served r.is_shut (s.is_shut || false) (unshut ∙ sym (or-false s.is_shut))))
      | inr leave ↦
          rw (waits, asked, leave)
            (ends (served true (s.is_shut || true) (sym (or-true s.is_shut))))
    ]

-- A request is answered, and the connection is shut down if the new parser says that it is not kept
-- alive.
pub exchange-Served :
    {P : Type 0} (site : Site P) (x : Exchange) (s : Session P)
    → IsPlain site.date
    → IsIdle s
    → IsRequest site s.parser s.request x
    → length (answer site x.filled) ≤ taken x
    → Ends
        (Served site
          (s.client ++ answer site x.filled)
          (s.is_shut || not (site.should_keep_alive site.init))
          s)
        (exchange site x s)
unfolding exchange
exchange-Served site x s date idle q enough =
    Ends-then (read_event-Answered site x s date idle q) λ r a. complete site x s r enough a
