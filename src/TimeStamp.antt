-- ===== src/TimeStamp.antt =====
-- src/util/time_stamp.h: points in time, in microseconds. An `int64_t` is an unbounded integer
-- here: a time stamp that overflows it is undefined in C++. The argument of `addTime` is a
-- `double` that every caller fills from a `time_t`; it is that integer here, for which the
-- product with 10^6 is exact below 2^53. What the clock returns is an argument where it is read;
-- `Now` of src/util/time_stamp.cpp gives it in whole seconds.
pub mod Print
mod Tests
use qg_server.Common.{ℕ, suc, ◌*◌, ◌/◌, Bool}
use qg_server.Common.Int.{ℤ, pos, negsuc, sub_ℕ, ltb_ℤ, leb_ℤ, eq_ℤ, ◌+ℤ◌, ◌-ℤ◌, ◌*ℤ◌}

pub record TimeStamp : Type 0 where
  pub unix_time_stamp : ℤ

abbrev pub micro_seconds_per_second : ℕ
micro_seconds_per_second = 1000 * 1000

-- Division in C++: towards zero.
abbrev pub div_trunc : ℤ → ℕ → ℤ
div_trunc (pos n) d = pos (n / d)
div_trunc (negsuc n) d = sub_ℕ 0 (suc n / d)

-- TimeStamp::Now, by what to_time_t returns for the time of the system's clock.
abbrev pub now : ℕ → TimeStamp
now res = record { unix_time_stamp = pos (res * micro_seconds_per_second) }

unfoldable pub epoch : TimeStamp
epoch = record { unix_time_stamp = pos 0 }

unfoldable pub to_milliseconds : TimeStamp → ℤ
to_milliseconds t = div_trunc t.unix_time_stamp 1000

pub to_seconds : TimeStamp → ℤ
to_seconds t = div_trunc t.unix_time_stamp micro_seconds_per_second

-- The comparisons of the header, each with its own body there.
abbrev pub lt : TimeStamp → TimeStamp → Bool
lt lhs rhs = ltb_ℤ lhs.unix_time_stamp rhs.unix_time_stamp

abbrev pub le : TimeStamp → TimeStamp → Bool
le lhs rhs = leb_ℤ lhs.unix_time_stamp rhs.unix_time_stamp

abbrev pub eq : TimeStamp → TimeStamp → Bool
eq lhs rhs = eq_ℤ lhs.unix_time_stamp rhs.unix_time_stamp

abbrev pub gt : TimeStamp → TimeStamp → Bool
gt lhs rhs = ltb_ℤ rhs.unix_time_stamp lhs.unix_time_stamp

abbrev pub ge : TimeStamp → TimeStamp → Bool
ge lhs rhs = leb_ℤ rhs.unix_time_stamp lhs.unix_time_stamp

unfoldable pub sub : TimeStamp → TimeStamp → TimeStamp
sub lhs rhs = record { unix_time_stamp = lhs.unix_time_stamp -ℤ rhs.unix_time_stamp }

unfoldable pub add : TimeStamp → TimeStamp → TimeStamp
add lhs rhs = record { unix_time_stamp = lhs.unix_time_stamp +ℤ rhs.unix_time_stamp }

unfoldable pub add_time : TimeStamp → ℤ → TimeStamp
add_time t seconds = record {
  unix_time_stamp = t.unix_time_stamp +ℤ seconds *ℤ pos micro_seconds_per_second;
}
