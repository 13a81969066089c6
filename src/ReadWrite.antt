-- ===== src/ReadWrite.antt =====
-- src/util/rwtool.h: the loops around the system calls ::read and ::write. What the calls return
-- is an argument, a list in the order of the calls; a loop that is not over at the end of the list
-- is `exhausted`. A return value of -1 is `none`.
pub mod Sending
mod Tests
use qg_server.Common.{
  ℕ, zero, suc, ◌+◌, ◌-◌, ◌^◌, Bool, List, [], ◌∷◌, ◌++◌, Option, none, some, Outcome, done, fault,
  exhausted, ◌==◌, if◌then◌else◌, is_empty, leb, length, take, replicate,
}
use qg_server.Common.Text.{Text}
use qg_server.Common.Int.{ℤ, pos, negsuc}

-- errno, where a call returns -1.
pub data Errno : Type 0 where
  eagain eintr econnreset other_error : Errno

pub data ReadResult : Type 0 where
  got : Text → ReadResult
  read_failed : Errno → ReadResult

pub data WriteResult : Type 0 where
  sent : ℕ → WriteResult
  write_failed : Errno → WriteResult

-- read into a buffer that has room for `nleft` bytes more: the bytes stored, or `none` for -1.
unfoldable pub read_n : ℕ → List ReadResult → Text → Outcome (Option Text × List ReadResult)
read_n zero rs stored = done (some stored, rs)
read_n (suc n) [] stored = exhausted
read_n (suc n) (got t ∷ rest) stored =
    let more = read_n (suc n - length t) rest (stored ++ t) in
    if is_empty t then done (some stored, rest) else more
read_n (suc n) (read_failed eagain ∷ rest) stored = done (some stored, rest)
read_n (suc n) (read_failed e ∷ rest) stored = done (none, rest)

-- read into a string, `size` bytes at a time: the string, the value returned, and the results that
-- are left.
unfoldable pub read : ℕ → List ReadResult → Text → ℕ → Outcome (Text × Option ℕ × List ReadResult)
read size [] buffer cnt = exhausted
read size (got t ∷ rest) buffer cnt =
    let more = read size rest (buffer ++ t) (cnt + length t) in
    if is_empty t
    then done (buffer, some cnt, rest)
    else if length t == size
    then more
    else done (buffer ++ t, some (length t), rest)
read size (read_failed e ∷ rest) buffer cnt = done (buffer, none, rest)

-- The loop of write: the bytes on the wire, the value returned, and the results that are left.
-- The source writes from `buffer` with `size` bytes at every turn.
unfoldable pub write_loop :
    Text → List WriteResult → ℕ → Text → Outcome (Text × Option ℕ × List WriteResult)
write_loop buffer [] cnt wire = exhausted
write_loop buffer (write_failed eagain ∷ rest) cnt wire = done (wire, some cnt, rest)
write_loop buffer (write_failed e ∷ rest) cnt wire = done (wire, none, rest)
write_loop buffer (sent n ∷ rest) cnt wire =
    let more = write_loop buffer rest (cnt + n) (wire ++ take n buffer) in
    if cnt + n == length buffer
    then done (wire ++ take n buffer, some (length buffer), rest)
    else more

unfoldable pub write : Text → List WriteResult → Outcome (Text × Option ℕ × List WriteResult)
unfolding write_loop
write buffer rs = write_loop buffer rs 0 []

-- readFile, by what tellg returns at the end of the file, -1 where it was not opened, and the bytes
-- that ifs.read finds. The vector takes the size as an unsigned number, and throws for one that no
-- memory has room for; bytes that are not read are zero.
unfoldable pub read_file : ℤ → Text → Outcome Text
read_file (negsuc n) contents = fault
read_file (pos file_size) contents =
    if leb (2 ^ 63 - 1) file_size
    then fault
    else done (take file_size contents ++ replicate (file_size - length contents) 0)
