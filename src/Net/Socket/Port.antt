-- ===== src/Net/Socket/Port.antt =====
-- The port that `Socket::bindAndListen` binds, and the port that it says it listens on.
use mathlib.Core.List.{append_assoc}
use qg_server.Common.{
  ℕ, ◌+◌, ◌%◌, ◌^◌, ◌≡◌, refl, ap, sym, ◌∙◌, length-append, ltb, Bool, true, false, [], ◌∷◌, ◌++◌,
  Ends, ends, arith, drop, length,
}
use qg_server.Common.Int.{ℤ, pos, negsuc}
use qg_server.Common.Text.{Text, codes, decimal, number_of, number_of-decimal}
use qg_server.Net.SysCall.{bind_port, listen_on}
use qg_server.Net.Socket.{Socket, port_or_default, bind_and_listen}

drop-append : (s t : Text) → drop (length s) (s ++ t) ≡ t
drop-append [] t = refl
drop-append (c ∷ s) t = drop-append s t

abbrev label : Text
label = codes "Listen on port: "

-- The port in the text that is added to `info_`.
abbrev pub told_port : Text → Text → ℕ
told_port before after = number_of 0 (drop (length before + 16) after)

told : (before : Text) (n : ℕ) → told_port before (before ++ (label ++ decimal n)) ≡ n
told before n =
    let size : length before + 16 ≡ length (before ++ label) =
      omega (arith, length-append before label) in
    ap (λ (k : ℕ). number_of 0 (drop k (before ++ (label ++ decimal n)))) size
    ∙ ap (λ (t : Text). number_of 0 (drop (length (before ++ label)) t))
        (sym (append_assoc before label (decimal n)))
    ∙ ap (number_of 0) (drop-append (before ++ label) (decimal n))
    ∙ number_of-decimal n

-- The port that is meant: 3000 for a negative one.
abbrev pub meant : ℤ → ℕ
meant (pos n) = n
meant (negsuc n) = 3000

-- Where bind succeeds, the port that the text of the socket names is the one that is meant, also
-- where listen fails; the port that is bound is the rest of it modulo 2^16, which is another one
-- from 2^16 on.
pub bind_and_listen_port :
    (port backlog : ℤ) (listens : Bool) (s : Socket)
    → Ends
        (λ r.
          (r.1 ≡ bind_port s.fd (meant port % 2 ^ 16) ∷ listen_on s.fd backlog ∷ [])
          × (told_port s.info r.0.info ≡ meant port))
        (bind_and_listen port backlog true listens s)
unfolding bind_and_listen
bind_and_listen_port (pos n) backlog listens s =
    let plain : ltb n 0 ≡ false = ground arith in
    let same : port_or_default (pos n) ≡ pos n = ground arith in
    rw same (ends (refl, told s.info n))
bind_and_listen_port (negsuc n) backlog listens s =
    let same : port_or_default (negsuc n) ≡ pos 3000 = ground arith in
    rw same (ends (refl, told s.info 3000))
