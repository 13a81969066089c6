-- ===== src/TimeStamp/Tests.antt =====
-- Texts of concrete times.
use qg_server.Common.{◌≡◌, refl}
use qg_server.Common.Text.{codes, decimal}
use qg_server.Common.Int.{pos}
use qg_server.TimeStamp.{TimeStamp}
use qg_server.TimeStamp.Print.{to_string}

-- One second and five microseconds.
abbrev early : TimeStamp
early = record { unix_time_stamp = pos 1000005 }

early_text : to_string early ≡ codes "00000 100000 5"
unfolding to_string decimal
early_text = refl
