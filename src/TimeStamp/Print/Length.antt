-- ===== src/TimeStamp/Print/Length.antt =====
-- How long the text of a number is, and that `toFormatedString` has room for it.
use qg_server.Common.{
  suc, ◌^◌, ◌<◌, ◌≤◌, ◌≡◌, refl, leb, false, ◌++◌, done, length, length-append, arith,
}
use qg_server.Common.Text.{codes, length-decimal}
use qg_server.Common.Int.{ℤ, pos, negsuc}
use qg_server.TimeStamp.{TimeStamp}
use qg_server.TimeStamp.Print.{signed_decimal, to_formated_string}

-- The values of an int64_t.
abbrev pub IsInt64 : ℤ → Type 0
IsInt64 (pos n) = n < 2 ^ 63
IsInt64 (negsuc n) = n < 2 ^ 63

length-signed_decimal : (a : ℤ) → IsInt64 a → length (signed_decimal a) ≤ 20
length-signed_decimal (pos n) small =
    let few = length-decimal 18 n (omega (arith, small)) in omega (arith, few)
length-signed_decimal (negsuc n) small =
    let few = length-decimal 18 (suc n) (omega (arith, small)) in omega (arith, few)

-- The text of every value that an int64_t has fits the buffer of toFormatedString, with the zero
-- byte that ends it.
pub to_formated_string-fits :
    (t : TimeStamp)
    → IsInt64 t.unix_time_stamp
    → to_formated_string t ≡ done (codes "unix timestamp : " ++ signed_decimal t.unix_time_stamp)
unfolding to_formated_string
to_formated_string-fits t small =
    let head = codes "unix timestamp : " in
    let few = length-signed_decimal t.unix_time_stamp small in
    let both = length-append head (signed_decimal t.unix_time_stamp) in
    let fits : leb 50 (length (head ++ signed_decimal t.unix_time_stamp)) ≡ false =
      ground (arith, few, both) in
    rw fits refl
