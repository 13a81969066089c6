-- ===== src/ReadWrite/Sending.antt =====
-- `write` of src/util/rwtool.h: the bytes that reach the wire, and when they are those of the buffer.
use mathlib.Core.List.{append-nil, append_assoc}
use qg_server.Common.{
  ℕ, ◌+◌, ◌<◌, ◌≡◌, ◌≢◌, refl, false, List, [], ◌∷◌, ◌++◌, map, some, done, Ends, ends, Ends-branch,
  ◌==◌, arith, length, take,
}
use qg_server.Common.Text.{Text}
use qg_server.ReadWrite.{eagain, WriteResult, sent, write_failed, write_loop, write}

-- The first bytes of the buffer, once for each call.
abbrev pub heads : Text → List ℕ → Text
heads buffer [] = []
heads buffer (n ∷ ns) = take n buffer ++ heads buffer ns

abbrev pub sum : List ℕ → ℕ
sum [] = 0
sum (n ∷ ns) = n + sum ns

-- No call but perhaps the last brings the count to the size of the buffer.
abbrev pub IsShort : ℕ → ℕ → List ℕ → Type 0
IsShort size cnt [] = Unit {0}
IsShort size cnt (n ∷ ns) = (cnt + n ≢ size) × IsShort size (cnt + n) ns

write_loop-stops :
    (buffer : Text) (ns : List ℕ) (rest : List WriteResult) (cnt total : ℕ) (wire : Text)
    → IsShort (length buffer) cnt ns
    → total ≡ cnt + sum ns
    → write_loop buffer (map sent ns ++ write_failed eagain ∷ rest) cnt wire
      ≡ done (wire ++ heads buffer ns, some total, rest)
unfolding write_loop
write_loop-stops buffer [] rest cnt total wire h e =
    let same : total ≡ cnt = omega (arith, e) in rw (append-nil, same)
write_loop-stops buffer (n ∷ ns) rest cnt total wire h e =
    let below : (cnt + n == length buffer) ≡ false = ground (arith, h.0) in
    rw below (
      rw (
        write_loop-stops buffer ns rest (cnt + n) total (wire ++ take n buffer) h.1
            (omega (arith, e)),
        append_assoc,
      ))

-- Writes that are short, until the socket is full: the call returns the sum of what they took, and
-- the wire has the first bytes of the buffer again for each of them.
pub write_repeats :
    (buffer : Text) (ns : List ℕ) (rest : List WriteResult)
    → IsShort (length buffer) 0 ns
    → write buffer (map sent ns ++ write_failed eagain ∷ rest)
      ≡ done (heads buffer ns, some (sum ns), rest)
unfolding write
write_repeats buffer ns rest h = write_loop-stops buffer ns rest 0 (sum ns) [] h (omega arith)

-- A call that takes `n` bytes before the socket is full, or that takes the whole buffer.
pub write_once :
    (buffer : Text) (n : ℕ) (rest : List WriteResult)
    → Ends
        (λ r. (r.0 ≡ take n buffer) × (r.1 ≡ some n))
        (write buffer (sent n ∷ write_failed eagain ∷ rest))
unfolding write write_loop
write_once buffer n rest =
    Ends-branch (0 + n == length buffer)
      (λ e. let same : length buffer ≡ n = ground (arith, e) in rw same (ends (refl, refl)))
      (λ e. let same : 0 + n ≡ n = omega arith in rw same (ends (refl, refl)))

-- Two calls that take more than the buffer holds, the first less, then a full socket: the value
-- returned is more than the size of the buffer.
pub write_too_much :
    (buffer : Text) (n m : ℕ) (rest : List WriteResult)
    → n < length buffer
    → length buffer < n + m
    → Ends (λ r. r.1 ≡ some (n + m)) (write buffer (sent n ∷ sent m ∷ write_failed eagain ∷ rest))
unfolding write
write_too_much buffer n m rest less more =
    let twice =
      write_loop-stops buffer (n ∷ m ∷ []) rest 0 (n + m) []
        (omega (arith, less), (omega (arith, more), tt)) (omega arith) in
    rw twice (ends refl)
