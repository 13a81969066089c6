-- ===== src/Http/Session/Answered.antt =====
-- From the bytes of a request to those of the answer, over one connection.
use mathlib.Core.List.{append-nil}
use qg_server.Common.{
  ℕ, ◌+◌, ◌-◌, ◌<◌, ◌≡◌, Option, none, some, inl, inr, Bool-cases, ltb, is_empty, if◌then◌else◌,
  refl, ap, ◌∙◌, true, false, List, [], ◌∷◌, ◌++◌, done, ◌>>=◌, arith, length, map, Ends, Ends-then,
  Ends-weaken,
}
use qg_server.Common.Text.{Text, codes}
use qg_server.ReadWrite.{Errno, ReadResult, got, read_failed}
use qg_server.TcpConnection.{message, write_in_loop_of, Functor}
use qg_server.Http.Request.{HttpRequest, new_request}
use qg_server.TcpConnection.Reading.{Call, bytes, IsCall, handed, handle_read_hands_on}
use qg_server.Http.Context.{on_events}
use qg_server.Http.Response.{to_string}
use qg_server.Http.Response.Framing.{IsPlain, after_blank, content_length}
use qg_server.Http.Server.{File, max_file_size}
use qg_server.Http.Server.Pages.{page_body, page_of, load, stops, page_framed}
use qg_server.Http.Server.Messages.{message_answered}
use qg_server.Http.Session.{
  come, act_all, Session, Site, on_effects, run_first, read_event, write_events,
}
use qg_server.Http.Session.Sending.{
  takes_once, total, Sending, write_events-Sending, run_first-Sending,
}

-- A connection between two requests.
pub record IsIdle {P : Type 0} (s : Session P) : Type 0 where
  pub read_buf : s.connection.read_buf ≡ []
  pub write_buf : s.connection.write_buf ≡ []
  pub writing : s.connection.writing ≡ false
  pub connected : s.connection.disconnected ≡ false
  pub pending : s.pending ≡ []

-- A request and how it is answered: the texts that ::read brings in one call of read before it fails,
-- and how many bytes the socket takes by its one ::write, first as the loop runs the function that
-- writes and then at each event.
-- `filled` is what the parser's callbacks make of the request.
pub record Exchange : Type 0 where
  pub full : List Text
  pub last : Text
  pub failed : Errno
  pub first : ℕ
  pub later : List ℕ
  pub filled : HttpRequest

abbrev call_of : Exchange → Call
call_of x = record { full = x.full; last = x.last }

abbrev pub input : Exchange → Text
input x = bytes (call_of x)

abbrev pub reads : Exchange → List ReadResult
reads x = map got x.full ++ got x.last ∷ read_failed x.failed ∷ []

abbrev pub taken : Exchange → ℕ
taken x = x.first + total x.later

-- The texts fill the buffer of read but for the last, and the parser takes the request whole,
-- without an error; its callbacks succeed and end the request, whose path has no CR. The
-- path names no file that readFile cannot load.
pub record IsRequest {P : Type 0} (site : Site P) (parser : P) (request : HttpRequest)
    (x : Exchange) : Type 0 where
  pub call : IsCall (call_of x)
  pub fills :
      on_events site.parse_url (site.execute (input x) parser).1.events request ≡ done x.filled
  pub all : (site.execute (input x) parser).1.taken ≡ length (input x)
  pub is_ok : (site.execute (input x) parser).1.is_ok ≡ true
  pub over : x.filled.message_is_end ≡ true
  pub goes_on : stops (site.stat (codes "." ++ x.filled.request_path)) ≡ false
  pub plain : IsPlain x.filled.request_path

abbrev pub answer : {P : Type 0} → Site P → HttpRequest → Text
answer site filled = to_string site.date (page_of site.stat filled)

abbrev pub page : {P : Type 0} → Site P → HttpRequest → Text
page site filled = page_body (site.stat (codes "." ++ filled.request_path))

-- A client finds the page and its length in the answer.
pub record IsFramed {P : Type 0} (site : Site P) (filled : HttpRequest) : Type 0 where
  pub body : after_blank true (answer site filled) ≡ page site filled
  pub size : content_length (answer site filled) ≡ length (page site filled)

pub answer-IsFramed :
    {P : Type 0} (site : Site P) (filled : HttpRequest)
    → IsPlain site.date
    → IsPlain filled.request_path
    → IsFramed site filled
answer-IsFramed site filled d p =
    let (framed, size) = page_framed site.stat site.date filled d p in
    record { body = framed; size = size }

-- The answer was sent to the client but for the bytes that the socket did not take, and the context
-- has a new request and a new parser.
pub record Answered {P : Type 0} (site : Site P) (x : Exchange) (s r : Session P) : Type 0 where
  pub framed : IsFramed site x.filled
  pub sending :
      Sending
        (s.client ++ answer site x.filled)
        (length (answer site x.filled) - taken x)
        (record s { request = new_request 0 site.garbage; parser = site.init })
        r

page_body-some : (o : Option File) → 0 < length (page_body o)
page_body-some none = omega arith
page_body-some (some file) = elim (Bool-cases (ltb max_file_size file.size)) [
  | inl big ↦ rw big (omega arith)
  | inr fits ↦ rw fits (contents_or_status (load file.end_position file.contents))
]
  where
    contents_or_status : (t : Text) → 0 < length (if is_empty t then codes "200 OK" else t)
    contents_or_status [] = omega arith
    contents_or_status (c ∷ t) = omega arith

after_blank-some : (t : Text) → 0 < length (after_blank true t) → 0 < length t
unfolding after_blank
after_blank-some [] h = h
after_blank-some (c ∷ t) h = omega arith

answer-some :
    {P : Type 0} (site : Site P) (filled : HttpRequest)
    → IsFramed site filled
    → 0 < length (answer site filled)
answer-some site filled framed =
    after_blank-some (answer site filled)
      (rw (framed.body) (page_body-some (site.stat (codes "." ++ filled.request_path))))

-- What the message callback leaves: the answer waits to be written.
abbrev pub came : {P : Type 0} → Site P → HttpRequest → Session P → Session P
came site filled s = record s {
  request = new_request 0 site.garbage;
  parser = site.init;
  pending = s.pending ++ write_in_loop_of (answer site filled) ∷ [];
}

come_lem :
    {P : Type 0} (site : Site P) (x : Exchange) (s : Session P)
    → IsRequest site s.parser s.request x
    → come site (input x) s ≡ done (came site x.filled s)
unfolding come act_all
come_lem site x s q = rw (
    message_answered site.parse_url site.stat site.date site.garbage (input x)
      (site.execute (input x) s.parser).1 s.request q.fills q.all q.is_ok q.over q.goes_on)

-- The bytes of a request are handed on, and the answer waits.
pub read_event-came :
    {P : Type 0} (site : Site P) (x : Exchange) (s : Session P)
    → IsIdle s
    → IsRequest site s.parser s.request x
    → read_event site (reads x) s
      ≡ done (came site x.filled (record s { connection = record s.connection { read_buf = [] } }))
unfolding read_event on_effects
read_event-came site x s idle q =
    let c = record s.connection { read_buf = [] } in
    let handed_on : s.connection.read_buf ++ handed [] (call_of x ∷ []) ≡ input x =
      rw (idle.read_buf, append-nil) in
    let reads =
      handle_read_hands_on [] x.failed [] s.connection tt (call_of x) [] (q.call, tt)
      ∙ ap (λ (t : Text). done (c, message t ∷ [])) handed_on in
    rw reads (rw (come_lem site x (record s { connection = c }) q))

-- On a connection between two requests, a request is there for one call of read: in any number of
-- texts that fill the 1024 bytes of its buffer, and a last one that is shorter and not empty, before
-- ::read fails. The parser takes the request whole, without an error, and its callbacks succeed and
-- end it; the date and the path have no CR, and the path names no file that readFile cannot load.
-- The socket takes a number of bytes by one ::write, and the next one fails with EAGAIN: so in the
-- function that writes, which the loop runs first, and so at each write event after that. Then, for
-- any such numbers, the server reads the request, and writes an answer in which a client finds the
-- page for the path and its length. What the client was sent since and what is kept is the answer,
-- and the bytes that are kept are as many as the answer has more than the numbers together. That all
-- was sent is announced once, when nothing is kept, and not before, so that the connection is not
-- shut down while the answer is being sent. The context has a new request and a new parser.
pub read_event-Answered :
    {P : Type 0} (site : Site P) (x : Exchange) (s : Session P)
    → IsPlain site.date
    → IsIdle s
    → IsRequest site s.parser s.request x
    → Ends (Answered site x s) (
        read_event site (reads x) s
        >>= run_first site (takes_once x.first)
        >>= write_events site (map takes_once x.later))
read_event-Answered site x s date idle q =
    let text = answer site x.filled in
    let framed = answer-IsFramed site x.filled date q.plain in
    let waiting =
      came site x.filled (record s { connection = record s.connection { read_buf = [] } }) in
    rw (read_event-came site x s idle q) (
      Ends-then
        (run_first-Sending site x.first text waiting (answer-some site x.filled framed)
          (ap (λ (fs : List Functor). fs ++ write_in_loop_of text ∷ []) idle.pending) idle.write_buf
          idle.writing refl idle.connected)
        λ r first.
          Ends-weaken
            (write_events-Sending site x.later (s.client ++ text) (length text - x.first) waiting r
              first)
            λ u w. record {
              framed = framed;
              sending = record {
                kept = w.kept;
                unsent = omega (arith, w.unsent);
                read_buf = w.read_buf;
                writing = w.writing;
                connected = w.connected;
                same = w.same;
                announced = w.announced;
              };
            })
