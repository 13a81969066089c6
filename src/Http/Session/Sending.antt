-- ===== src/Http/Session/Sending.antt =====
-- The bytes of an answer, from the function that writes them first to the last write event.
use Prim.Native.Nat.{min}
use mathlib.Core.List.{append_assoc}
use qg_server.Common.{
  ℕ, zero, suc, ◌<◌, ◌+◌, ◌-◌, ◌≤◌, ◌≡◌, refl, sym, ap, ◌∙◌, inl, inr, Bool, Bool-cases, true,
  false, not, ◌&&◌, List, [], ◌∷◌, ◌++◌, some, leb, if◌then◌else◌, arith, is_empty, length, take,
  drop, length-drop, take-append-drop, map, Ends, ends, Ends-then, Ends-weaken, Ends-branch, ltb,
  ◌==◌,
}
use qg_server.Common.Text.{Text}
use qg_server.ReadWrite.{WriteResult, sent, write_failed, eagain}
use qg_server.ReadWrite.Sending.{write_once}
use qg_server.TcpConnection.{
  write_in_loop_of, handle_write, written, write_in_loop, keep_rest, announce, write_complete,
  Functor, wire,
}
use qg_server.TcpConnection.Writing.{is_empty_inv}
use qg_server.Http.Request.{HttpRequest}
use qg_server.Http.Session.{
  Session, Site, on_effects, with_connection, run_functor, run_first, write_event, write_events,
}

-- A socket that one ::write fills, with `n` bytes at most; the next one fails with EAGAIN. (After two
-- short writes in one call, the wire has bytes twice: ReadWrite/Sending.)
abbrev pub takes_once : ℕ → Text → List WriteResult
takes_once n t = sent (min n (length t)) ∷ write_failed eagain ∷ []

abbrev pub total : List ℕ → ℕ
total [] = 0
total (n ∷ ns) = n + total ns

-- The function that announces that all was sent.
abbrev pub when_sent : Text → List Functor
when_sent buf = if is_empty buf then write_complete [] ∷ [] else []

is_empty-drop : (m : ℕ) (t : Text) → is_empty (drop m t) ≡ leb (length t) m
is_empty-drop zero [] = ground arith
is_empty-drop zero (c ∷ t) = ground arith
is_empty-drop (suc m) [] = ground arith
is_empty-drop (suc m) (c ∷ t) = ground (arith, is_empty-drop m t)

all_sent :
    (m : ℕ) (t : Text)
    → m ≤ length t
    → 0 < length t
    → (ltb 0 m && m == length t) ≡ is_empty (drop m t)
all_sent m t fits some_left = rw (is_empty-drop m t) (ground (arith, fits, some_left))

-- What writing leaves as it is.
pub record Frame (P : Type 0) : Type 0 where
  pub reading : Bool
  pub told : Bool
  pub context : HttpRequest
  pub parser : P
  pub shut : Bool
  pub closed : Bool

abbrev pub frame : {P : Type 0} → Session P → Frame P
frame s = record {
  reading = s.connection.reading;
  told = s.connection.has_close_call_back;
  context = s.request;
  parser = s.parser;
  shut = s.is_shut;
  closed = s.is_closed;
}

-- `text` is what the client has and what is to be sent to it, of which `left` bytes are not sent.
-- Until all is sent, the connection waits for writing; that all was sent is announced then, and
-- not before. The rest is as in `origin`.
pub record Sending {P : Type 0} (text : Text) (left : ℕ) (origin s : Session P) : Type 0 where
  pub kept : s.client ++ s.connection.write_buf ≡ text
  pub unsent : length s.connection.write_buf ≡ left
  pub read_buf : s.connection.read_buf ≡ []
  pub writing : s.connection.writing ≡ not (is_empty s.connection.write_buf)
  pub connected : s.connection.disconnected ≡ false
  pub same : frame s ≡ frame origin
  pub announced : s.pending ≡ when_sent s.connection.write_buf

module _ {P : Type 0} (site : Site P) where
  written-Sending :
      (m : ℕ) (s : Session P)
      → m ≤ length s.connection.write_buf
      → s.connection.writing ≡ true
      → is_empty s.connection.write_buf ≡ false
      → s.pending ≡ []
      → s.connection.read_buf ≡ []
      → s.connection.disconnected ≡ false
      → Ends
          (λ r.
            Ends
              (Sending (s.client ++ s.connection.write_buf) (length s.connection.write_buf - m) s)
              (with_connection site r s))
          (written (take m s.connection.write_buf) (some m) s.connection)
  unfolding written on_effects
  written-Sending m s fits waits some_left none_yet nothing_read live =
      let buf = s.connection.write_buf in
      let fit : leb m (length buf) ≡ true = ground (arith, fits) in
      let whole : (s.client ++ take m buf) ++ drop m buf ≡ s.client ++ buf =
        append_assoc s.client (take m buf) (drop m buf)
        ∙ ap (λ (t : Text). s.client ++ t) (take-append-drop m buf) in
      elim (Bool-cases (is_empty (drop m buf))) [
        | inl e ↦
            rw (fit, e)
              (ends (
                ends (record {
                  kept = whole;
                  unsent = length-drop m buf;
                  read_buf = nothing_read;
                  writing = sym (ap not e);
                  connected = live;
                  same = refl;
                  announced = rw (e, none_yet) refl;
                })))
        | inr e ↦
            rw (fit, e)
              (ends (
                ends (record {
                  kept = whole;
                  unsent = length-drop m buf;
                  read_buf = nothing_read;
                  writing = waits ∙ sym (ap not e);
                  connected = live;
                  same = refl;
                  announced = rw (e, none_yet) refl;
                })))
      ]

  write_event-Sending :
      (n : ℕ) (text : Text) (left : ℕ) (o s : Session P)
      → Sending text left o s
      → Ends (Sending text (left - n) o) (write_event site (takes_once n) s)
  unfolding write_event handle_write
  write_event-Sending n text left o s v =
      let buf = s.connection.write_buf in
      elim (Bool-cases (is_empty buf)) [
        | inl e ↦
            let over : length buf ≡ 0 = ap length (is_empty_inv buf e) in
            rw e (
              ends (record {
                kept = v.kept;
                unsent = omega (arith, v.unsent, over);
                read_buf = v.read_buf;
                writing = v.writing;
                connected = v.connected;
                same = v.same;
                announced = v.announced;
              }))
        | inr e ↦
            let m = min n (length buf) in
            let none_yet : s.pending ≡ [] = rw e at v.announced in
            rw e (
              Ends-weaken {P = Sending (s.client ++ buf) (length buf - m) s}
                (Ends-then
                  (Ends-then (write_once buf m []) λ (out, count, rest) (same, all).
                    rw (same, all)
                      (written-Sending m s (omega arith) (v.writing ∙ ap not e) e none_yet
                        v.read_buf v.connected))
                  λ r p. p)
                λ r w. record {
                  kept = w.kept ∙ v.kept;
                  unsent = omega (arith, w.unsent, v.unsent);
                  read_buf = w.read_buf;
                  writing = w.writing;
                  connected = w.connected;
                  same = w.same ∙ v.same;
                  announced = w.announced;
                })
      ]

  pub write_events-Sending :
      (ns : List ℕ) (text : Text) (left : ℕ) (o s : Session P)
      → Sending text left o s
      → Ends (Sending text (left - total ns) o) (write_events site (map takes_once ns) s)
  unfolding write_events
  write_events-Sending [] text left o s v =
      let same : left - 0 ≡ left = omega arith in rw same (ends v)
  write_events-Sending (n ∷ ns) text left o s v =
      let same : (left - n) - total ns ≡ left - (n + total ns) = omega arith in
      rw (sym same) (
        Ends-then (write_event-Sending n text left o s v)
          λ r w. write_events-Sending ns text (left - n) o r w)

  keep_rest-Sending :
      (m : ℕ) (text : Text) (s : Session P)
      → m ≤ length text
      → 0 < length text
      → s.pending ≡ []
      → s.connection.write_buf ≡ []
      → s.connection.writing ≡ false
      → s.connection.read_buf ≡ []
      → s.connection.disconnected ≡ false
      → Ends
          (λ r. Ends (Sending (s.client ++ text) (length text - m) s) (with_connection site r s))
          (keep_rest text (some m) (wire (take m text) ∷ announce text (some m)) s.connection)
  unfolding keep_rest on_effects
  keep_rest-Sending m text s fits some_left none_yet empty idle nothing_read live =
      let fit : leb m (length text) ≡ true = ground (arith, fits) in
      let whole : (s.client ++ take m text) ++ drop m text ≡ s.client ++ text =
        append_assoc s.client (take m text) (drop m text)
        ∙ ap (λ (t : Text). s.client ++ t) (take-append-drop m text) in
      let told = all_sent m text fits some_left in
      elim (Bool-cases (is_empty (drop m text))) [
        | inl e ↦
            rw (told, fit, empty, idle, e)
              (ends (
                ends (record {
                  kept = whole;
                  unsent = length-drop m text;
                  read_buf = nothing_read;
                  writing = sym (ap not e);
                  connected = live;
                  same = refl;
                  announced = rw (e, none_yet) refl;
                })))
        | inr e ↦
            rw (told, fit, empty, idle, e)
              (ends (
                ends (record {
                  kept = whole;
                  unsent = length-drop m text;
                  read_buf = nothing_read;
                  writing = sym (ap not e);
                  connected = live;
                  same = refl;
                  announced = rw (e, none_yet) refl;
                })))
      ]

  write_in_loop-Sending :
      (n : ℕ) (text : Text) (s : Session P)
      → 0 < length text
      → s.pending ≡ []
      → s.connection.write_buf ≡ []
      → s.connection.writing ≡ false
      → s.connection.read_buf ≡ []
      → s.connection.disconnected ≡ false
      → Ends
          (Sending (s.client ++ text) (length text - n) s)
          (run_functor site (takes_once n) (write_in_loop_of text) s)
  unfolding run_functor write_in_loop
  write_in_loop-Sending n text s some_left none_yet empty idle nothing_read live =
      let m = min n (length text) in
      let same_left : length text - m ≡ length text - n = omega arith in
      let direct : (not s.connection.writing && is_empty s.connection.write_buf) ≡ true =
        rw (empty, idle) refl in
      rw (sym same_left) (
        Ends-then
          {P = λ r.
            Ends (Sending (s.client ++ text) (length text - m) s) (with_connection site r s)}
          (Ends-branch s.connection.disconnected (λ gone. cc)
            λ _.
              Ends-branch (not s.connection.writing && is_empty s.connection.write_buf)
                (λ _. Ends-then (write_once text m []) λ (out, count, rest) (same, all).
                  rw (same, all)
                    (keep_rest-Sending m text s (omega arith) some_left none_yet empty idle
                      nothing_read live))
                (λ busy. cc))
          λ r p. p)

  pub run_first-Sending :
      (n : ℕ) (text : Text) (s : Session P)
      → 0 < length text
      → s.pending ≡ write_in_loop_of text ∷ []
      → s.connection.write_buf ≡ []
      → s.connection.writing ≡ false
      → s.connection.read_buf ≡ []
      → s.connection.disconnected ≡ false
      → Ends (Sending (s.client ++ text) (length text - n) s) (run_first site (takes_once n) s)
  unfolding run_first
  run_first-Sending n text s some_left waits empty idle nothing_read live = rw waits (
      Ends-weaken {P = Sending (s.client ++ text) (length text - n) (record s { pending = [] })}
        (write_in_loop-Sending n text (record s { pending = [] }) some_left refl empty idle
          nothing_read live)
        λ q w. record {
          kept = w.kept;
          unsent = w.unsent;
          read_buf = w.read_buf;
          writing = w.writing;
          connected = w.connected;
          same = w.same;
          announced = w.announced;
        })
