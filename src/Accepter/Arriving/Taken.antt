-- ===== src/Accepter/Arriving/Taken.antt =====
-- Which connections a server takes, of those that come.
use qg_server.Common.{
  ℕ, zero, suc, ◌+◌, ◌-◌, ◌<◌, take, ◌≡◌, refl, ◌∙◌, List, [], ◌∷◌, ◌++◌, map, Option, none, some,
  Ends, ends, Ends-then, Ends-branch, Ends-both, Ends-weaken, ltb, arith,
}
use qg_server.Common.Maps.{lookup}
use qg_server.Accepter.{Server, handle_new_con, handle_read}
use qg_server.Accepter.Counting
use qg_server.Accepter.Counting.{IsStarted, get_next_loop-IsStarted, handle_new_con-IsCounted}

-- The descriptors that come are new, to the server too, and each comes once.
abbrev pub AllNew : (ℕ → Type 0) → List (ℕ × ℕ) → List ℕ → Type 0
AllNew new connections [] = Unit {0}
AllNew new connections (fd ∷ fds) =
    (lookup fd connections ≡ none) × new fd × AllNew new ((fd, 0) ∷ connections) fds

-- So are those of the connections that the server has.
abbrev pub HaveNew : (ℕ → Type 0) → List (ℕ × ℕ) → Type 0
HaveNew new [] = Unit {0}
HaveNew new (c ∷ connections) = (lookup c.0 connections ≡ none) × new c.0 × HaveNew new connections

-- A new connection stands first in the map.
handle_new_con-adds :
    (fd : ℕ) (s : Server)
    → IsStarted s.pool
    → Ends
        (λ taken.
          (loop : ℕ) × (taken.connections ≡ (fd, loop) ∷ s.connections)
          × (taken.connection_number ≡ s.connection_number + 1)
          × (taken.connection_high_water ≡ s.connection_high_water))
        (handle_new_con fd s)
unfolding handle_new_con
handle_new_con-adds fd s v =
    Ends-then (get_next_loop-IsStarted s.pool v) λ (pool, loop) _. ends (loop, refl, refl, refl)

-- Which descriptors are new does not depend on the loops of the others.
pub AllNew-same :
    (new : ℕ → Type 0) (before after : List (ℕ × ℕ)) (fds : List ℕ)
    → ((k : ℕ) → lookup k before ≡ none → lookup k after ≡ none)
    → AllNew new before fds
    → AllNew new after fds
AllNew-same new before after [] same v = tt
AllNew-same new before after (fd ∷ fds) same (out, fresh, v) = (
  same fd out,
  fresh,
  AllNew-same new ((fd, 0) ∷ before) ((fd, 0) ∷ after) fds (λ k e. ground (arith, e, same k)) v,
)

pub HaveNew-weaken :
    (new new_too : ℕ → Type 0) (connections : List (ℕ × ℕ))
    → ((fd : ℕ) → new fd → new_too fd)
    → HaveNew new connections
    → HaveNew new_too connections
HaveNew-weaken new new_too [] weaken v = tt
HaveNew-weaken new new_too (c ∷ connections) weaken (out, fresh, v) =
    (out, weaken c.0 fresh, HaveNew-weaken new new_too connections weaken v)

pub handle_read-HaveNew :
    (new : ℕ → Type 0) (fds : List ℕ) (rest : List (Option ℕ)) (s : Server)
    → Counting.IsCounted s
    → AllNew new s.connections fds
    → HaveNew new s.connections
    → Ends (λ r. HaveNew new r.0.connections) (handle_read (map some fds ++ none ∷ rest) s)
unfolding handle_read
handle_read-HaveNew new [] rest s c later v = ends v
handle_read-HaveNew new (zero ∷ fds) rest s c later v = ends v
handle_read-HaveNew new (suc n ∷ fds) rest s c (out, fresh, later) v =
    Ends-branch (ltb s.connection_high_water s.connection_number) (λ e. ends v)
      (λ e.
        Ends-then
          (Ends-both (handle_new_con-IsCounted (suc n) s c (ground (arith, e)))
            (handle_new_con-adds (suc n) s c.started))
          λ taken (counted, (loop, added, more, same)).
            let grown = (suc n, loop) ∷ s.connections in
            let still : AllNew new taken.connections fds = rw added (
              AllNew-same new ((suc n, 0) ∷ s.connections) grown fds (λ k f. ground (arith, f))
                later) in
            let have : HaveNew new taken.connections = rw added (out, fresh, v) in
            handle_read-HaveNew new fds rest taken counted still have)

-- The descriptors of the connections, newest first.
abbrev pub keys : List (ℕ × ℕ) → List ℕ
keys connections = map (λ (c : ℕ × ℕ). c.0) connections

-- One list after the other, the first from its end on.
abbrev pub onto : List ℕ → List ℕ → List ℕ
onto [] ys = ys
onto (x ∷ xs) ys = onto xs (x ∷ ys)

-- How many connections the server takes.
abbrev pub room : Server → ℕ
room s = s.connection_high_water + 1 - s.connection_number

take-none : (n : ℕ) → take {A = ℕ} n [] ≡ []
take-none zero = refl
take-none (suc n) = refl

pub handle_read-takes :
    (new : ℕ → Type 0) (fds : List ℕ) (rest : List (Option ℕ)) (s : Server)
    → ((fd : ℕ) → new fd → 0 < fd)
    → Counting.IsCounted s
    → AllNew new s.connections fds
    → Ends
        (λ r. keys r.0.connections ≡ onto (take (room s) fds) (keys s.connections))
        (handle_read (map some fds ++ none ∷ rest) s)
unfolding handle_read
handle_read-takes new [] rest s positive c v = ends (rw (take-none (room s)) refl)
handle_read-takes new (zero ∷ fds) rest s positive c (out, fresh, later) =
    let bad = positive 0 fresh in absurd (omega (arith, bad))
handle_read-takes new (suc n ∷ fds) rest s positive c (out, fresh, later) =
    Ends-branch (ltb s.connection_high_water s.connection_number)
      (λ e. let none_left : room s ≡ 0 = ground (arith, e) in ends (rw none_left refl))
      (λ e.
        Ends-then
          (Ends-both (handle_new_con-IsCounted (suc n) s c (ground (arith, e)))
            (handle_new_con-adds (suc n) s c.started))
          λ taken (counted, (loop, added, more, same)).
            let still : AllNew new taken.connections fds = rw added (
              AllNew-same new ((suc n, 0) ∷ s.connections) ((suc n, loop) ∷ s.connections) fds
                (λ k f. ground (arith, f)) later) in
            let less : room s ≡ suc (room taken) = ground (arith, e, more, same) in
            Ends-weaken (handle_read-takes new fds rest taken positive counted still)
              λ r taken_keys. rw less (taken_keys ∙ rw added refl))
