-- ===== src/Accepter/Closing/Tests.antt =====
-- Two threads that change a count of five connections.
use qg_server.Common.{arith}
use qg_server.Accepter.Closing.Race.{Interleaved, race_outcomes}

race_outcomes_example : Interleaved 5
race_outcomes_example = race_outcomes 5 (omega arith)
