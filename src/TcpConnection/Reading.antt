-- ===== src/TcpConnection/Reading.antt =====
-- The reading side of a connection: `handleRead` over the `read` of src/util/rwtool.h.
use mathlib.Core.List.{append-nil, append_assoc}
use qg_server.Common.{
  inl, inr, Bool-cases, if◌then◌else◌, ℕ, zero, suc, ◌+◌, ◌≤◌, ◌<◌, ◌≡◌, refl, ap, ◌∙◌, true, false,
  List, [], ◌∷◌, ◌++◌, map, none, some, done, ◌==◌, ltb, arith, is_empty, length, length-append,
}
use qg_server.Common.Text.{Text}
use qg_server.ReadWrite.{Errno, ReadResult, got, read_failed, read}
use qg_server.TcpConnection.{
  TcpConnection, message, update_handler, connection_close, default_read_buff_size, read_loop,
  close, handle_close, handle_read,
}

abbrev join : List Text → Text
join [] = []
join (t ∷ ts) = t ++ join ts

-- What one call of read takes before it returns: texts that fill its buffer, and a shorter one.
pub record Call : Type 0 where
  pub full : List Text
  pub last : Text

abbrev pub bytes : Call → Text
bytes k = join k.full ++ k.last

abbrev pub AllFull : List Text → Type 0
AllFull [] = Unit {0}
AllFull (t ∷ ts) = (length t ≡ default_read_buff_size) × AllFull ts

abbrev pub IsCall : Call → Type 0
IsCall k = AllFull k.full × (0 < length k.last) × (length k.last < default_read_buff_size)

abbrev pub AllCalls : List Call → Type 0
AllCalls [] = Unit {0}
AllCalls (k ∷ ks) = IsCall k × AllCalls ks

abbrev pub results : List Call → List ReadResult → List ReadResult
results [] rest = rest
results (k ∷ ks) rest = map got k.full ++ got k.last ∷ results ks rest

-- What the message callback is given after these calls: the text that the calls have in common is
-- handed over again for each of them.
abbrev pub handed : Text → List Call → Text
handed buf [] = []
handed buf (k ∷ ks) = (buf ++ bytes k) ++ handed (buf ++ bytes k) ks

longer-is_empty : (t : Text) → 0 < length t → is_empty t ≡ false
longer-is_empty [] h = absurd (omega (arith, h))
longer-is_empty (c ∷ t) h = refl

read_call :
    (full : List Text) (last : Text) (rest : List ReadResult) (buf : Text) (cnt : ℕ)
    → AllFull full
    → 0 < length last
    → length last < default_read_buff_size
    → read default_read_buff_size (map got full ++ got last ∷ rest) buf cnt
      ≡ done (buf ++ (join full ++ last), some (length last), rest)
unfolding read
read_call [] last rest buf cnt h some_left short =
    let a : is_empty last ≡ false = longer-is_empty last some_left in
    let b : (length last == default_read_buff_size) ≡ false = ground (arith, short) in rw (a, b)
read_call (t ∷ full) last rest buf cnt (h, hs) some_left short =
    let a : is_empty t ≡ false = longer-is_empty t (omega (arith, h)) in
    rw (a, h)
      (rw (
        read_call full last rest (buf ++ t) (cnt + default_read_buff_size) hs some_left short,
        append_assoc,
        append_assoc,
      ))

read_stops :
    (full : List Text) (e : Errno) (rest : List ReadResult) (buf : Text) (cnt : ℕ)
    → AllFull full
    → read default_read_buff_size (map got full ++ read_failed e ∷ rest) buf cnt
      ≡ done (buf ++ join full, none, rest)
unfolding read
read_stops [] e rest buf cnt h = rw append-nil
read_stops (t ∷ full) e rest buf cnt (h, hs) =
    let a : is_empty t ≡ false = longer-is_empty t (omega (arith, h)) in
    rw (a, h)
      (rw (read_stops full e rest (buf ++ t) (cnt + default_read_buff_size) hs, append_assoc))

abbrev taken : List Call → ℕ
taken [] = 0
taken (k ∷ ks) = length k.last + taken ks

read_loop-more :
    (fuel : ℕ) (rs rest : List ReadResult) (buf filled last : Text) (cnt : ℕ) (read_buf : Text)
    → read default_read_buff_size rs buf 0 ≡ done (filled, some (length last), rest)
    → 0 < length last
    → read_loop (suc fuel) rs buf cnt read_buf
      ≡ read_loop fuel rest filled (cnt + length last) (read_buf ++ filled)
unfolding read_loop
read_loop-more fuel rs rest buf filled [] cnt read_buf e h = absurd (omega (arith, h))
read_loop-more fuel rs rest buf filled (c ∷ last) cnt read_buf e h = rw e

read_loop-handed :
    (fuel : ℕ) (ks : List Call) (full : List Text) (e : Errno) (rest : List ReadResult) (buf : Text)
    (cnt total : ℕ) (read_buf : Text)
    → length ks < fuel
    → AllCalls ks
    → AllFull full
    → total ≡ cnt + taken ks
    → read_loop fuel (results ks (map got full ++ read_failed e ∷ rest)) buf cnt read_buf
      ≡ done (total, read_buf ++ handed buf ks)
unfolding read_loop
read_loop-handed zero ks full e rest buf cnt total read_buf f h hs all = absurd (omega (arith, f))
read_loop-handed (suc fuel) [] full e rest buf cnt total read_buf f h hs all =
    let same : total ≡ cnt = omega (arith, all) in
    rw (read_stops full e rest buf 0 hs) (rw (append-nil, same))
read_loop-handed (suc fuel) (k ∷ ks) full e rest buf cnt total read_buf f ((a, b, c), h) hs all =
    let tail = map got full ++ read_failed e ∷ rest in
    let filled = buf ++ bytes k in
    let one = read_call k.full k.last (results ks tail) buf 0 a b c in
    let more =
      read_loop-handed fuel ks full e rest filled (cnt + length k.last) total (read_buf ++ filled)
        (omega (arith, f)) h hs (omega (arith, all)) in
    read_loop-more fuel (results (k ∷ ks) tail) (results ks tail) buf filled k.last cnt read_buf one
      b
    ∙ more
    ∙ ap (λ (t : Text). done (total, t)) (append_assoc read_buf filled (handed filled ks))

length-results : (ks : List Call) (rest : List ReadResult) → length ks ≤ length (results ks rest)
length-results [] rest = omega arith
length-results (k ∷ ks) rest =
    omega
      (arith, length-results ks rest, length-append (map got k.full) (got k.last ∷ results ks rest))

module _ (full : List Text) (e : Errno) (rest : List ReadResult) (c : TcpConnection)
    (is_full : AllFull full) where
  -- An event in which read returns at least once with fewer bytes than its buffer holds, before
  -- ::read fails: the message callback gets what was kept from before, and for each such call of
  -- read all the bytes that the calls have brought so far. Texts that fill the buffer, and that
  -- no shorter one follows, are not handed on.
  pub handle_read_hands_on :
      (k : Call) (ks : List Call)
      → AllCalls (k ∷ ks)
      → handle_read (results (k ∷ ks) (map got full ++ read_failed e ∷ rest)) c
        ≡ done (record c { read_buf = [] }, message (c.read_buf ++ handed [] (k ∷ ks)) ∷ [])
  unfolding handle_read
  handle_read_hands_on k ks h =
      let rs = results (k ∷ ks) (map got full ++ read_failed e ∷ rest) in
      let looped =
        read_loop-handed (length rs + 1) (k ∷ ks) full e rest [] 0 (taken (k ∷ ks)) c.read_buf
          (let bound = length-results (k ∷ ks) (map got full ++ read_failed e ∷ rest) in
            omega (arith, bound))
          h is_full (omega arith) in
      let some_taken : ltb 0 (taken (k ∷ ks)) ≡ true = ground (arith, h.0.1) in
      rw looped (rw some_taken)

  -- An event that brings only texts that fill the buffer of read, before ::read fails, with EAGAIN
  -- too: nothing is handed to the message callback, and the connection counts as disconnected. If
  -- nothing waits to be written, it neither reads nor writes any more, and the callback for closing
  -- is called where one is set; otherwise nothing else happens.
  pub full_reads_close :
      handle_read (map got full ++ read_failed e ∷ rest) c
      ≡ done (
          if is_empty c.write_buf
          then (
            record c { reading = false; writing = false; disconnected = true },
            update_handler ∷ (if c.has_close_call_back then connection_close ∷ [] else []),
          )
          else (record c { disconnected = true }, []))
  unfolding handle_read close handle_close
  full_reads_close =
      let rs = map got full ++ read_failed e ∷ rest in
      rw
        (read_loop-handed (length rs + 1) [] full e rest [] 0 0 c.read_buf (omega arith) tt is_full
          (omega arith))
        (ap (λ (t : Text). done (close (record c { read_buf = t }))) (append-nil c.read_buf)
          ∙ elim (Bool-cases (is_empty c.write_buf)) [ inl e ↦ rw e refl | inr e ↦ rw e refl ])
