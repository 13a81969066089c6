-- ===== src/Accepter/Pool/Tests.antt =====
-- A thread that asks for a loop before it is published.
use qg_server.Common.{refl, none}
use qg_server.Accepter.Pool.Handshake.{Meeting, new_meeting, asleep, calls, Reached, here, next}
use qg_server.Accepter.Pool.Handshake.Met.{Meets, Reached-Meets}

abbrev sleeping : Meeting
sleeping = record (new_meeting none) { asker = asleep }

sleeping-Reached : Reached 3 (new_meeting none) sleeping
sleeping-Reached = next here (calls (new_meeting none) refl)

Reached-Meets_example : Meets 3 none sleeping
Reached-Meets_example = Reached-Meets 3 none sleeping sleeping-Reached
