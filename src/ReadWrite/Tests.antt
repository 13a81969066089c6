-- ===== src/ReadWrite/Tests.antt =====
-- Writes of concrete bytes.
use qg_server.Common.{◌≡◌, [], ◌∷◌, some, done, arith}
use qg_server.ReadWrite.{eagain, sent, write_failed, write}
use qg_server.ReadWrite.Sending.{write_repeats}

-- Five bytes, of which the socket takes two and then one.
write_repeats_example :
    write (1 ∷ 2 ∷ 3 ∷ 4 ∷ 5 ∷ []) (sent 2 ∷ sent 1 ∷ write_failed eagain ∷ [])
    ≡ done (1 ∷ 2 ∷ 1 ∷ [], some 3, [])
write_repeats_example =
    write_repeats (1 ∷ 2 ∷ 3 ∷ 4 ∷ 5 ∷ []) (2 ∷ 1 ∷ []) [] (omega arith, (omega arith, tt))
