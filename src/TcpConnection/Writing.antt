-- ===== src/TcpConnection/Writing.antt =====
-- The writing side of a connection: `writeInLoop`, `handleWrite` and `close`.
use mathlib.Core.List.{append-nil}
use qg_server.Common.{
  ℕ, ◌+◌, ◌≤◌, ◌<◌, ◌≡◌, ◌≢◌, refl, ap, true, false, not, Bool-cases, inl, inr, ◌&&◌, List, [], ◌∷◌,
  ◌++◌, none, some, done, fault, Ends, ends, Ends-then, Ends-branch, Ends-inv, ◌==◌, leb, ltb,
  arith, is_empty, length, take, drop, take-append-drop,
}
use qg_server.Common.Text.{Text}
use qg_server.ReadWrite.{
  Errno, eagain, eintr, econnreset, other_error, WriteResult, sent, write_failed, write_loop, write,
}
use qg_server.ReadWrite.Sending.{write_once, write_too_much}
use qg_server.TcpConnection.{
  TcpConnection, Effect, wire, connection_close, connection_come, register_handler, remove_handler,
  increment, decrement, message, update_handler, add_functor, keep_rest, announce, write_in_loop,
  written, handle_write,
}

abbrev pub on_wire : List Effect → Text
on_wire [] = []
on_wire (wire t ∷ es) = t ++ on_wire es
on_wire (_ ∷ es) = on_wire es

-- A connection that has bytes to send waits for writing.
abbrev pub IsWaiting : TcpConnection → Type 0
IsWaiting c = is_empty c.write_buf ≡ false → c.writing ≡ true

-- No byte is lost or sent twice: what was to be sent is what went out and what is kept.
pub record Sent (pending : Text) (r : TcpConnection × List Effect) : Type 0 where
  pub kept : on_wire r.1 ++ r.0.write_buf ≡ pending
  pub waiting : IsWaiting r.0

written-Sent :
    (c : TcpConnection) (n : ℕ)
    → n ≤ length c.write_buf
    → IsWaiting c
    → is_empty c.write_buf ≡ false
    → Ends (Sent c.write_buf) (written (take n c.write_buf) (some n) c)
unfolding written
written-Sent c n fits waits some_left =
    let whole = take-append-drop n c.write_buf in
    Ends-branch (leb n (length c.write_buf))
      (λ e.
        Ends-branch (is_empty (drop n c.write_buf))
          (λ f. ends (record { kept = rw append-nil whole; waiting = λ g. cc }))
          (λ f. ends (record { kept = rw append-nil whole; waiting = λ g. waits some_left })))
      (λ e. absurd (ground (arith, fits, e)))

on_wire-update : (so_far : List Effect) → on_wire (so_far ++ update_handler ∷ []) ≡ on_wire so_far
on_wire-update [] = refl
on_wire-update (wire t ∷ es) = ap (λ (o : Text). t ++ o) (on_wire-update es)
on_wire-update (register_handler ∷ es) = on_wire-update es
on_wire-update (update_handler ∷ es) = on_wire-update es
on_wire-update (remove_handler ∷ es) = on_wire-update es
on_wire-update (connection_come ∷ es) = on_wire-update es
on_wire-update (connection_close ∷ es) = on_wire-update es
on_wire-update (increment ∷ es) = on_wire-update es
on_wire-update (decrement ∷ es) = on_wire-update es
on_wire-update (message x ∷ es) = on_wire-update es
on_wire-update (add_functor x ∷ es) = on_wire-update es

on_wire-announce : (text : Text) (n : ℕ) → on_wire (announce text (some n)) ≡ []
on_wire-announce text n = elim (Bool-cases (ltb 0 n && n == length text)) [
  | inl e ↦ rw e
  | inr e ↦ rw e
]

pub is_empty_inv : (t : Text) → is_empty t ≡ true → t ≡ []
is_empty_inv [] e = refl
is_empty_inv (c ∷ t) e = cc

longer-is_empty : (n : ℕ) (t : Text) → n < length t → is_empty t ≡ false
longer-is_empty n [] h = absurd (omega (arith, h))
longer-is_empty n (c ∷ t) h = refl

keep_rest-Sent :
    (c : TcpConnection) (text pending : Text) (n : ℕ) (so_far : List Effect)
    → n ≤ length text
    → IsWaiting c
    → on_wire so_far ++ (c.write_buf ++ drop n text) ≡ pending
    → Ends (Sent pending) (keep_rest text (some n) so_far c)
unfolding keep_rest
keep_rest-Sent c text pending n so_far fits waits whole =
    Ends-branch (leb n (length text))
      (λ e.
        Ends-branch (not (is_empty (c.write_buf ++ drop n text)) && not c.writing)
          (λ f. ends (record { kept = rw (on_wire-update so_far) whole; waiting = λ g. refl }))
          (λ f. ends (record { kept = whole; waiting = λ g. ground arith })))
      (λ e. absurd (ground (arith, fits, e)))

-- On a connection that waits for writing if it has bytes to send: when the socket takes some of
-- the bytes that are to be sent, and then is full, the bytes that went out and those that are
-- kept are the ones that were to be sent, in this order, and the connection still waits for
-- writing if bytes are kept.
pub handle_write_sends :
    (c : TcpConnection) (n : ℕ) (rest : List WriteResult)
    → IsWaiting c
    → n ≤ length c.write_buf
    → Ends (Sent c.write_buf) (handle_write (sent n ∷ write_failed eagain ∷ rest) c)
unfolding handle_write
handle_write_sends c n rest waits fits =
    Ends-branch (is_empty c.write_buf) (λ e. ends (record { kept = refl; waiting = waits }))
      (λ f.
        Ends-then (write_once c.write_buf n rest)
          λ (out, count, left) (same, all). rw (same, all) (written-Sent c n fits waits f))

-- New bytes on a connection that is not disconnected, and that waits for writing if it has bytes
-- to send: when the socket takes some of the new bytes, and then is full, the bytes that went
-- out and those that are kept are the ones kept from before and the new ones, in this order, and
-- the connection waits for writing if bytes are kept.
pub write_in_loop_sends :
    (c : TcpConnection) (n : ℕ) (text : Text) (rest : List WriteResult)
    → IsWaiting c
    → c.disconnected ≡ false
    → n ≤ length text
    → Ends (Sent (c.write_buf ++ text)) (write_in_loop (sent n ∷ write_failed eagain ∷ rest) text c)
unfolding write_in_loop
write_in_loop_sends c n text rest waits live fits =
    Ends-branch c.disconnected (λ e. cc)
      (λ d.
        Ends-branch (not c.writing && is_empty c.write_buf)
          (λ e. Ends-then (write_once text n rest) λ (out, count, left) (same, all).
            rw (same, all)
              (keep_rest-Sent c text (c.write_buf ++ text) n
                (wire (take n text) ∷ announce text (some n)) fits waits
                (rw
                  (
                    on_wire-announce text n,
                    append-nil,
                    is_empty_inv c.write_buf (ground (arith, e)),
                  )
                  (take-append-drop n text))))
          (λ e. keep_rest-Sent c text (c.write_buf ++ text) 0 [] (omega arith) waits refl))

write_fails :
    (e : Errno) (text : Text) (rest : List WriteResult)
    → e ≢ eagain
    → write text (write_failed e ∷ rest) ≡ done ([], none, rest)
unfolding write write_loop
write_fails eagain text rest other = absurd (other refl)
write_fails eintr text rest other = refl
write_fails econnreset text rest other = refl
write_fails other_error text rest other = refl

-- On a connection that is not disconnected, has nothing to send and does not wait for writing, a
-- write that fails, for another reason than a full socket, stops the server.
pub write_error_faults :
    (c : TcpConnection) (e : Errno) (text : Text) (rest : List WriteResult)
    → c.disconnected ≡ false
    → c.writing ≡ false
    → c.write_buf ≡ []
    → e ≢ eagain
    → write_in_loop (write_failed e ∷ rest) text c ≡ fault
unfolding write_in_loop
write_error_faults c e text rest a b d other = rw (a, b, d) (rw (write_fails e text rest other))

-- Two calls that take more than is to be sent, the first less, and then a full socket: the server
-- stops.
pub handle_write_faults :
    (c : TcpConnection) (n m : ℕ) (rest : List WriteResult)
    → n < length c.write_buf
    → length c.write_buf < n + m
    → handle_write (sent n ∷ sent m ∷ write_failed eagain ∷ rest) c ≡ fault
unfolding handle_write written
handle_write_faults c n m rest less more =
    let some_left : is_empty c.write_buf ≡ false = longer-is_empty n c.write_buf less in
    let (r, e, count) = Ends-inv (write_too_much c.write_buf n m rest less more) in
    let past : leb (n + m) (length c.write_buf) ≡ false = ground (arith, more) in
    rw some_left (rw e (rw count (rw past)))
