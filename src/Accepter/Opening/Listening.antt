-- ===== src/Accepter/Opening/Listening.antt =====
-- What the accepter watches and listens on, once it was constructed.
use qg_server.Common.{
  ℕ, ◌-◌, ◌%◌, ◌^◌, ◌≡◌, refl, ap, true, false, List, [], ◌∷◌, ◌++◌, none, some, arith, Ends, ends,
  Ends-then,
}
use qg_server.Common.Int.{ℤ, pos, negsuc, ltb_ℤ}
use qg_server.EventHandler.{event_read, join}
use qg_server.Pollpoller.Interest.{Interest, Watch, add_watch, change_watch}
use qg_server.EventLoop.Registry.{Registry, read_on}
use qg_server.EventLoop.Registry.Refines.{perform-Implements, Implements, registers, changes}
use qg_server.Net.SysCall.{SysCall, bind_port, listen_on}
use qg_server.Net.Socket.{Socket}
use qg_server.Net.Socket.Port.{told_port, meant, bind_and_listen_port}
use qg_server.Accepter.Opening.{Config, of_four_bits, stored_back_log, Answers, set_options, init}

of_four_bits_small : (n : ℕ) → ltb_ℤ (pos 7) (of_four_bits n) ≡ false
of_four_bits_small n = ground arith

stored_back_log_small : (b : ℤ) → ltb_ℤ (pos 7) (stored_back_log b) ≡ false
stored_back_log_small (pos n) = of_four_bits_small (n % 16)
stored_back_log_small (negsuc n) = of_four_bits_small (15 - n % 16)

-- What an accepter has done: the loop watches its descriptor for reading, and last, with the
-- options set, the socket is bound and listens.
pub record Listens (config : Config) (options : List SysCall) (s : Socket) (h : ℕ) (t : Interest)
    (r : Socket × Registry × List SysCall) : Type 0 where
  pub back_log : ℤ
  pub watched : Implements r.1 (change_watch h (join (t.wanted h) event_read) (add_watch h t))
  pub calls :
      r.2 ≡ options ++ bind_port s.fd (meant config.port % 2 ^ 16) ∷ listen_on s.fd back_log ∷ []
  pub small : ltb_ℤ (pos 7) back_log ≡ false
  pub told : told_port s.info r.0.info ≡ meant config.port

-- Where bind succeeds, for a handler that was never registered, with a descriptor that is not
-- watched, the accepter opens without a fault: the base loop watches the descriptor for reading
-- beside all that it watched before, the socket is bound and listens after its options are set, and
-- its text names the port that is meant. The port that is bound is the rest of it modulo 2^16, and
-- whatever backlog the configuration is given, listen gets at most 7.
pub init-Listens :
    (a : Answers) (config : Config) (s : Socket) (h : ℕ) (r : Registry) (t : Interest)
    → a.binds ≡ true
    → Implements r t
    → t.used h ≡ false
    → t.watched (t.handle h) ≡ none
    → Ends (Listens config (set_options a config s) s h t) (init a config s h r)
unfolding init
init-Listens a config s h r t binds i new free =
    let added = add_watch h t in
    let w : Watch = record { handler = h; events = t.wanted h; quiet = true } in
    let own : added.watched (t.handle h) ≡ some w = ground arith in
    Ends-then (perform-Implements r t i (registers h new free)) λ q j.
      Ends-then (perform-Implements q added j (changes read_on h w refl own)) λ u k. rw binds (
        Ends-then (bind_and_listen_port config.port (stored_back_log config.back_log) a.listens s)
          λ (listening, calls) (same, told). ends (record {
            back_log = stored_back_log config.back_log;
            watched = k;
            calls = ap (λ (cs : List SysCall). set_options a config s ++ cs) same;
            small = stored_back_log_small config.back_log;
            told = told;
          }))
