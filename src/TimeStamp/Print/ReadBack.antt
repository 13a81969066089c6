-- ===== src/TimeStamp/Print/ReadBack.antt =====
-- The text of `TimeStamp::toString` says which time it was made from.
use qg_server.Common.{ℕ, ◌+◌, ◌/◌, ◌*◌, ◌^◌, ◌==◌, [], ◌∷◌, if◌then◌else◌}
use qg_server.Common.Text.{Text, number_of}

-- What stands before the first blank, and what stands after it.
abbrev pub until_blank : Text → Text
until_blank [] = []
until_blank (c ∷ s) = if c == 32 then [] else c ∷ until_blank s

abbrev pub after_blank : Text → Text
after_blank [] = []
after_blank (c ∷ s) = if c == 32 then s else after_blank s

-- The five zeros before the second blank stand right after the seconds.
abbrev pub read_back : Text → ℕ
read_back s =
    number_of 0 (until_blank (after_blank s)) / 10 ^ 5 * 10 ^ 6
    + number_of 0 (after_blank (after_blank s))

abbrev five_zeros : Text
five_zeros = 48 ∷ 48 ∷ 48 ∷ 48 ∷ 48 ∷ []
