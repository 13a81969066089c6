-- ===== src/Http/Session/Conversation.antt =====
-- A connection from its start, over a request and its answer, to its end or a second request.
use qg_server.Common.{
  ◌≤◌, ◌≡◌, ◌≢◌, refl, ap, ◌∙◌, Bool, true, false, not, ◌||◌, List, [], ◌∷◌, ◌++◌, fault, ◌>>=◌,
  length, Ends, ends, Ends-then, Ends-weaken,
}
use qg_server.Common.Text.{Text}
use qg_server.ReadWrite.{got, read, WriteResult, write_failed, eagain, other_error}
use qg_server.TcpConnection.{Functor, write_in_loop_of, handle_read, read_loop, close, handle_close}
use qg_server.TcpConnection.Writing.{write_error_faults}
use qg_server.Http.Request.{new_request}
use qg_server.Http.Response.Framing.{IsPlain}
use qg_server.Http.Session.{
  Session, Site, on_effects, open_session, run_functor, run_first, read_event,
}
use qg_server.Http.Session.Answered.{
  read_event-came, IsIdle, Exchange, reads, taken, IsRequest, answer, IsFramed, answer-IsFramed,
}
use qg_server.Http.Session.Exchanging.{exchange, Served, exchange-Served}

-- A socket whose writing side was shut down: EPIPE.
abbrev pub broken : Text → List WriteResult
broken t = write_failed other_error ∷ []

-- The client ends the connection.
leaves :
    {P : Type 0} (site : Site P) (s : Session P)
    → IsIdle s
    → s.connection.has_close_call_back ≡ true
    → Ends
        (λ r.
          (r.client ≡ s.client)
          × (r.is_shut ≡ s.is_shut)
          × (r.is_closed ≡ true)
          × (r.connection.reading ≡ false))
        (read_event site (got [] ∷ []) s)
unfolding read_event handle_read read_loop read close handle_close on_effects
leaves site s idle told = rw (idle.write_buf, told) (ends (refl, refl, refl, refl))

other-ne-eagain : other_error ≢ eagain
other-ne-eagain e = cc

-- A request on an idle connection whose socket takes nothing more.
answer_faults :
    {P : Type 0} (site : Site P) (y : Exchange) (s : Session P)
    → IsIdle s
    → IsRequest site s.parser s.request y
    → (read_event site (reads y) s >>= run_first site broken) ≡ fault
unfolding run_first run_functor
answer_faults site y s idle q =
    let c = record s.connection { read_buf = [] } in
    let text = answer site y.filled in
    let waits : s.pending ++ write_in_loop_of text ∷ [] ≡ write_in_loop_of text ∷ [] =
      ap (λ (fs : List Functor). fs ++ write_in_loop_of text ∷ []) idle.pending in
    let fails =
      write_error_faults c other_error text [] idle.connected idle.writing idle.write_buf
        other-ne-eagain in
    rw (read_event-came site y s idle q) (rw waits (rw fails))

open_session-Served :
    {P : Type 0} (site : Site P)
    → Ends
        (λ s.
          Served site [] false s s
          × (s.connection.has_close_call_back ≡ true)
          × (s.connection.reading ≡ true)
          × (s.is_closed ≡ false))
        (open_session site)
unfolding open_session on_effects
open_session-Served site = ends (
  record {
    idle = record {
      read_buf = refl;
      write_buf = refl;
      writing = refl;
      connected = refl;
      pending = refl;
    };
    client = refl;
    context = refl;
    parser = refl;
    shut = refl;
    closed = refl;
    reading = refl;
    told = refl;
  },
  refl,
  refl,
  refl,
)

-- A connection that was answered its first request: it is read on, and was not closed.
pub record IsAnswered {P : Type 0} (site : Site P) (x : Exchange) (s : Session P) : Type 0 where
  pub idle : IsIdle s
  pub framed : IsFramed site x.filled
  pub client : s.client ≡ answer site x.filled
  pub shut : s.is_shut ≡ not (site.should_keep_alive site.init)
  pub closed : s.is_closed ≡ false
  pub reading : s.connection.reading ≡ true
  pub told : s.connection.has_close_call_back ≡ true
  pub context : s.request ≡ new_request 0 site.garbage
  pub parser : s.parser ≡ site.init

module _ {P : Type 0} (site : Site P) (x : Exchange) (date : IsPlain site.date)
    (q : IsRequest site site.init (new_request 0 site.garbage) x)
    (enough : length (answer site x.filled) ≤ taken x) where
  first-IsAnswered : Ends (IsAnswered site x) (open_session site >>= exchange site x)
  first-IsAnswered = Ends-then (open_session-Served site) λ s (o, told, reading, closed).
      let asked : IsRequest site s.parser s.request x = rw (o.parser, o.context) q in
      Ends-weaken (exchange-Served site x s date o.idle asked enough) λ r v. record {
        idle = v.idle;
        framed = answer-IsFramed site x.filled date q.plain;
        client = v.client ∙ ap (λ (t : Text). t ++ answer site x.filled) o.client;
        shut = v.shut ∙ ap (λ (b : Bool). b || not (site.should_keep_alive site.init)) o.shut;
        closed = v.closed ∙ closed;
        reading = v.reading ∙ reading;
        told = v.told ∙ told;
        context = v.context;
        parser = v.parser;
      }

  -- From the start of a connection to the client's end of it. The first request is there for one
  -- call of read: in texts that fill the 1024 bytes of its buffer, and a last one that is shorter
  -- and not empty, before ::read fails. The parser takes the request whole, without an error, and
  -- its callbacks succeed and end it; the date and the path have no CR, and the path names no file
  -- that readFile cannot load. The socket takes bytes by one ::write in the function that writes and
  -- by one at each write event, where the next ::write fails with EAGAIN, and takes as many as the
  -- answer has, together. Once all was sent, the client ends the connection. Then the
  -- client was sent the answer and nothing else, finds in it the page for the path and the page's
  -- length, and the server is asked to close the connection and reads it no more. The writing side
  -- was shut down after the answer exactly if the parser does not keep a connection alive in its
  -- first state, whatever the request says.
  pub life_answers :
      Ends
        (λ r.
          IsFramed site x.filled
          × (r.client ≡ answer site x.filled)
          × (r.is_shut ≡ not (site.should_keep_alive site.init))
          × (r.is_closed ≡ true)
          × (r.connection.reading ≡ false))
        (open_session site >>= exchange site x >>= read_event site (got [] ∷ []))
  life_answers = Ends-then first-IsAnswered λ r v.
      Ends-weaken (leaves site r v.idle v.told)
        λ u (same, still, closed, quiet). (v.framed, same ∙ v.client, still ∙ v.shut, closed, quiet)

  -- Two requests on one connection, the second after the answer to the first. Each is there for one
  -- call of read: in texts that fill the 1024 bytes of its buffer, and a last one that is shorter and
  -- not empty, before ::read fails. The parser, which starts anew for each, takes each whole, without
  -- an error, and its callbacks succeed and end it; the date and the paths have no CR, and no path
  -- names a file that readFile cannot load. For the first answer, the socket takes bytes by one
  -- ::write in the function that writes and by one at each write event, where the next ::write
  -- fails with EAGAIN, and takes the whole of it. The parser does not keep a connection alive in its
  -- first state, and a ::write after the shutdown of the writing side fails with an error that is
  -- not EAGAIN, as EPIPE. Then the connection is shut down after the first answer, but still
  -- read, and the second request stops the server, as its answer is written.
  pub second_request_faults :
      (y : Exchange)
      → site.should_keep_alive site.init ≡ false
      → IsRequest site site.init (new_request 0 site.garbage) y
      → Ends
          (λ r.
            (r.is_shut ≡ true)
            × (r.connection.reading ≡ true)
            × ((read_event site (reads y) r >>= run_first site broken) ≡ fault))
          (open_session site >>= exchange site x)
  second_request_faults y gone p = Ends-weaken first-IsAnswered λ r v.
      (v.shut ∙ ap not gone, v.reading, answer_faults site y r v.idle (rw (v.parser, v.context) p))
