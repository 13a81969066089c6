-- ===== src/TcpConnection/Closing.antt =====
-- The turns that a connection takes in its loop, and what it does once it is closed.
use mathlib.Core.Path.{subst}
use qg_server.Common.{
  ℕ, ◌+◌, ◌≤◌, ◌≡◌, ◌⊎◌, refl, sym, ap, ◌∙◌, inl, inr, true, false, not, ◌&&◌, Bool-cases, if-cases,
  List, [], ◌∷◌, ◌++◌, Option, none, some, Outcome, done, fault, exhausted, ◌>>=◌, ltb,
  if◌then◌else◌, is_empty, length, arith,
}
use qg_server.Common.Text.{Text}
use qg_server.ReadWrite.{ReadResult, WriteResult, write}
use qg_server.TcpConnection.{
  TcpConnection, Effect, connection_close, update_handler, wire, message, handle_read, handle_write,
  write_in_loop, handle_close, close, read_loop, keep_rest, written, announce,
}

-- The read callback runs while reading is waited for, the write callback while writing is, and
-- writeInLoop whenever it was added to the loop.
pub data Turn (c : TcpConnection) : List Effect → TcpConnection → Type 0 where
  reads :
      (rs : List ReadResult) {es : List Effect} {d : TcpConnection}
      → c.reading ≡ true
      → handle_read rs c ≡ done (d, es)
      → Turn c es d
  writes :
      (rs : List WriteResult) {es : List Effect} {d : TcpConnection}
      → c.writing ≡ true
      → handle_write rs c ≡ done (d, es)
      → Turn c es d
  writes_new :
      (rs : List WriteResult) (data_buf : Text) {es : List Effect} {d : TcpConnection}
      → write_in_loop rs data_buf c ≡ done (d, es)
      → Turn c es d

-- Turns one after the other, with all that they do.
pub data Turns : TcpConnection → List Effect → TcpConnection → Type 0 where
  over : {c : TcpConnection} → Turns c [] c
  turn :
      {c d e : TcpConnection} {es fs all : List Effect}
      → Turn c es d
      → Turns d fs e
      → all ≡ es ++ fs
      → Turns c all e

abbrev pub close_count : Effect → ℕ
close_count connection_close = 1
close_count _ = 0

-- How often the close callback of the server is called.
abbrev pub closes : List Effect → ℕ
closes [] = 0
closes (e ∷ es) = close_count e + closes es

pub record IsClosed (c : TcpConnection) : Type 0 where
  pub not_reading : c.reading ≡ false
  pub not_writing : c.writing ≡ false
  pub disconnected : c.disconnected ≡ true

-- A result that closes the connection at most once, and leaves it closed then.
abbrev ClosesWell : TcpConnection × List Effect → Type 0
ClosesWell (d, es) = (closes es ≡ 0) ⊎ ((closes es ≡ 1) × IsClosed d)

closes-append : (es fs : List Effect) → closes (es ++ fs) ≡ closes es + closes fs
closes-append [] fs = omega arith
closes-append (e ∷ es) fs = omega (arith, closes-append es fs)

close-ClosesWell : (c : TcpConnection) → ClosesWell (close c)
unfolding close handle_close
close-ClosesWell c = ground arith

written-ClosesWell :
    (on_wire : Text) (n : Option ℕ) (c d : TcpConnection) (es : List Effect)
    → written on_wire n c ≡ done (d, es)
    → ClosesWell (d, es)
unfolding written handle_close
written-ClosesWell on_wire n c d es e = ground arith

keep_rest-closes :
    (data_buf : Text) (n : Option ℕ) (so_far : List Effect) (c d : TcpConnection) (es : List Effect)
    → closes so_far ≡ 0
    → keep_rest data_buf n so_far c ≡ done (d, es)
    → closes es ≡ 0
unfolding keep_rest
keep_rest-closes data_buf none so_far c d es start e = cc
keep_rest-closes data_buf (some n) so_far c d es start e =
    ground (arith, closes-append so_far (update_handler ∷ []))

announce-closes : (data_buf : Text) (n : Option ℕ) → closes (announce data_buf n) ≡ 0
announce-closes data_buf none = refl
announce-closes data_buf (some n) = ground arith

handle_read-ClosesWell :
    (rs : List ReadResult) (c d : TcpConnection) (es : List Effect)
    → handle_read rs c ≡ done (d, es)
    → ClosesWell (d, es)
unfolding handle_read
handle_read-ClosesWell rs c d es e = given (read_loop (length rs + 1) rs [] 0 c.read_buf) e
  where
    given :
        (o : Outcome (ℕ × Text))
        → (o >>= λ (cnt, read_buf). done (
            if ltb 0 cnt
            then (record c { read_buf = [] }, message read_buf ∷ [])
            else close (record c { read_buf = read_buf })))
          ≡ done (d, es)
        → ClosesWell (d, es)
    given (done (cnt, read_buf)) f = elim (Bool-cases (ltb 0 cnt)) [
      | inl some_bytes ↦
          let same = rw some_bytes at f in
          let these : message read_buf ∷ [] ≡ es = cc in inl (rw (sym these) refl)
      | inr no_bytes ↦
          let same = rw no_bytes at f in
          let closed : close (record c { read_buf = read_buf }) ≡ (d, es) = cc in
          subst ClosesWell closed (close-ClosesWell (record c { read_buf = read_buf }))
    ]
    given fault f = cc
    given exhausted f = cc

handle_write-ClosesWell :
    (rs : List WriteResult) (c d : TcpConnection) (es : List Effect)
    → handle_write rs c ≡ done (d, es)
    → ClosesWell (d, es)
unfolding handle_write
handle_write-ClosesWell rs c d es e = elim (if-cases (is_empty c.write_buf) e) [
  | inl (nothing, same) ↦
      let none_done : ◌≡◌ {A = List Effect} [] es = cc in inl (rw (sym none_done) refl)
  | inr (more, f) ↦ given (write c.write_buf rs) f
]
  where
    given :
        (o : Outcome (Text × Option ℕ × List WriteResult))
        → (o >>= λ r. written r.0 r.1 c) ≡ done (d, es)
        → ClosesWell (d, es)
    given (done (on_wire, n, rest)) f = written-ClosesWell on_wire n c d es f
    given fault f = cc
    given exhausted f = cc

write_in_loop-closes :
    (rs : List WriteResult) (data_buf : Text) (c d : TcpConnection) (es : List Effect)
    → write_in_loop rs data_buf c ≡ done (d, es)
    → closes es ≡ 0
unfolding write_in_loop
write_in_loop-closes rs data_buf c d es e = elim (if-cases c.disconnected e) [
  | inl (gone, same) ↦ let none_done : ◌≡◌ {A = List Effect} [] es = cc in rw (sym none_done) refl
  | inr (there, f) ↦ elim (if-cases (not c.writing && is_empty c.write_buf) f) [
    | inl (direct, g) ↦ given (write data_buf rs) g
    | inr (later, g) ↦ keep_rest-closes data_buf (some 0) [] c d es refl g
  ]
]
  where
    given :
        (o : Outcome (Text × Option ℕ × List WriteResult))
        → (o >>= λ r. keep_rest data_buf r.1 (wire r.0 ∷ announce data_buf r.1) c) ≡ done (d, es)
        → closes es ≡ 0
    given (done (on_wire, n, rest)) f =
        keep_rest-closes data_buf n (wire on_wire ∷ announce data_buf n) c d es
          (omega (arith, announce-closes data_buf n)) f
    given fault f = cc
    given exhausted f = cc

Turn-ClosesWell : {c d : TcpConnection} {es : List Effect} → Turn c es d → ClosesWell (d, es)
Turn-ClosesWell {c} {d} {es} (reads rs reading e) = handle_read-ClosesWell rs c d es e
Turn-ClosesWell {c} {d} {es} (writes rs writing e) = handle_write-ClosesWell rs c d es e
Turn-ClosesWell {c} {d} {es} (writes_new rs data_buf e) =
    inl (write_in_loop-closes rs data_buf c d es e)

-- A closed connection stays as it is.
Turn-IsClosed :
    {c d : TcpConnection} {es : List Effect} → Turn c es d → IsClosed c → (es ≡ []) × IsClosed d
unfolding write_in_loop
Turn-IsClosed (reads rs reading e) v = let not_reading = v.not_reading in cc
Turn-IsClosed (writes rs writing e) v = let not_writing = v.not_writing in cc
Turn-IsClosed {c} {d} {es} (writes_new rs data_buf e) v =
    let same = rw v.disconnected at e in
    let unchanged : c ≡ d = cc in
    let none_done : ◌≡◌ {A = List Effect} [] es = cc in (sym none_done, subst IsClosed unchanged v)

Turns-IsClosed :
    {c d : TcpConnection} {es : List Effect} → Turns c es d → IsClosed c → (es ≡ []) × IsClosed d
Turns-IsClosed over v = (refl, v)
Turns-IsClosed (turn t ts all) v =
    let (first, still) = Turn-IsClosed t v in
    let (later, last) = Turns-IsClosed ts still in (all ∙ rw (first, later), last)

-- All that a connection did so far, and whether it is closed.
Turns-ClosesWell : {c d : TcpConnection} {es : List Effect} → Turns c es d → ClosesWell (d, es)
Turns-ClosesWell over = inl refl
Turns-ClosesWell (turn {es} {fs} t ts all) = elim (Turn-ClosesWell t) [
  | inl none_yet ↦ elim (Turns-ClosesWell ts) [
    | inl none_later ↦
        inl (ap closes all ∙ omega (arith, closes-append es fs, none_yet, none_later))
    | inr (one_later, closed) ↦
        inr (ap closes all ∙ omega (arith, closes-append es fs, none_yet, one_later), closed)
  ]
  | inr (once, closed) ↦
      let (quiet, still) = Turns-IsClosed ts closed in
      inr (ap closes all ∙ omega (arith, closes-append es fs, once, ap closes quiet), still)
]

-- In whatever order a connection reads, writes and takes new bytes to write, while reading or
-- writing is waited for: it calls the close callback of the server at most once, and once it has,
-- it does nothing more: no bytes go out, no message is handed on and no function is added.
pub closes_once :
    {c d e : TcpConnection} {es fs : List Effect}
    → Turns c es d
    → Turns d fs e
    → (closes es + closes fs ≤ 1) × ((closes es ≡ 0) ⊎ (fs ≡ []))
closes_once {es} {fs} before after = elim (Turns-ClosesWell before) [
  | inl none_yet ↦ elim (Turns-ClosesWell after) [
    | inl none_later ↦ (omega (arith, none_yet, none_later), inl none_yet)
    | inr (one_later, _) ↦ (omega (arith, none_yet, one_later), inl none_yet)
  ]
  | inr (once, closed) ↦
      let quiet = (Turns-IsClosed after closed).0 in
      (omega (arith, once, ap closes quiet), inr quiet)
]
