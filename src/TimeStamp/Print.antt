-- ===== src/TimeStamp/Print.antt =====
-- `toString` and `toFormatedString` of src/util/time_stamp.cpp: a point in time as a text. The
-- width that setw sets holds for what is written next, which here is a blank.
pub mod Length
pub mod ReadBack
use qg_server.Common.{
  ℕ, suc, ◌-◌, ◌%◌, List, [], ◌∷◌, ◌++◌, Outcome, done, fault, leb, length, if◌then◌else◌,
  replicate,
}
use qg_server.Common.Text.{Text, codes, decimal}
use qg_server.Common.Int.{ℤ, pos, negsuc, sub_ℕ}
use qg_server.TimeStamp.{TimeStamp, div_trunc, micro_seconds_per_second}

-- The remainder in C++, which has the sign of what is divided.
abbrev pub rem_trunc : ℤ → ℕ → ℤ
rem_trunc (pos n) d = pos (n % d)
rem_trunc (negsuc n) d = sub_ℕ 0 (suc n % d)

-- An int64_t as `<<` and %lld write it.
abbrev pub signed_decimal : ℤ → Text
signed_decimal (pos n) = decimal n
signed_decimal (negsuc n) = 45 ∷ decimal (suc n)

-- os << setfill('0') << setw(width) << s
abbrev pub padded : ℕ → Text → Text
padded width s = replicate (width - length s) 48 ++ s

-- TimeStamp::toString
unfoldable pub to_string : TimeStamp → Text
to_string t =
    padded 6 (codes " ")
    ++ (signed_decimal (div_trunc t.unix_time_stamp micro_seconds_per_second)
        ++ (padded 6 (codes " ")
            ++ signed_decimal (rem_trunc t.unix_time_stamp micro_seconds_per_second)))

-- A call of sprintf for a buffer of `size` bytes, which the text and a zero byte must fit.
abbrev pub sprintf : ℕ → Text → Outcome Text
sprintf size s = if leb size (length s) then fault else done s

-- TimeStamp::toFormatedString
unfoldable pub to_formated_string : TimeStamp → Outcome Text
to_formated_string t = sprintf 50 (codes "unix timestamp : " ++ signed_decimal t.unix_time_stamp)
