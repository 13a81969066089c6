-- ===== src/Accepter/Closing/Settled.antt =====
-- What is left once the loops have run what closing connections handed to them.
use mathlib.Core.Path.{subst}
use qg_server.Common.{
  ℕ, ◌+◌, ◌≡◌, refl, sym, ap, ◌∙◌, true, false, List, [], ◌∷◌, length, arith, inl, inr, Bool-cases,
  ==_iff, if◌then◌else◌, ◌==◌,
}
use qg_server.Common.Maps.{erase}
use qg_server.Accepter.Closing.{
  Connection, Running, has_fd, handle_connection_close, dec_connection, run_base, run_io, settle,
}
use qg_server.Accepter.Closing.Counts.{AllOpen, IsCounted, length-erase, base_runs-IsCounted}

-- No descriptor has two entries in the map.
abbrev pub AllDistinct : List Connection → Type 0
AllDistinct [] = Unit {0}
AllDistinct (c ∷ cs) = (has_fd c.0 cs ≡ false) × AllDistinct cs

-- The connections but those whose descriptor is in `closing`.
abbrev pub without : List Connection → List Connection → List Connection
without closing [] = []
without closing (c ∷ cs) =
    let rest = without closing cs in if has_fd c.0 closing then rest else c ∷ rest

has_fd-erase-false :
    (fd g : ℕ) (cs : List Connection) → has_fd g cs ≡ false → has_fd g (erase fd cs) ≡ false
has_fd-erase-false fd g [] h = refl
has_fd-erase-false fd g (c ∷ cs) h = ground (arith, h, has_fd-erase-false fd g cs)

AllDistinct-erase : (fd : ℕ) (cs : List Connection) → AllDistinct cs → AllDistinct (erase fd cs)
AllDistinct-erase fd [] d = tt
AllDistinct-erase fd (c ∷ cs) (alone, d) = elim (Bool-cases (c.0 == fd)) [
  | inl e ↦ rw e d
  | inr e ↦ rw e (has_fd-erase-false fd c.0 cs alone, AllDistinct-erase fd cs d)
]

without-none : (cs : List Connection) → without [] cs ≡ cs
without-none [] = refl
without-none (c ∷ cs) = ap (λ (t : List Connection). c ∷ t) (without-none cs)

-- A connection that is not there changes nothing.
without-absent :
    (c : Connection) (rest cs : List Connection)
    → has_fd c.0 cs ≡ false
    → without rest cs ≡ without (c ∷ rest) cs
without-absent c rest [] h = refl
without-absent c rest (d ∷ cs) h =
    let same = without-absent c rest cs (ground (arith, h)) in
    let apart : (c.0 == d.0) ≡ false = ground (arith, h) in rw (apart, same) refl

without-erase :
    (c : Connection) (rest cs : List Connection)
    → AllDistinct cs
    → without rest (erase c.0 cs) ≡ without (c ∷ rest) cs
without-erase c rest [] d = refl
without-erase c rest (e ∷ cs) (alone, d) = elim (Bool-cases (e.0 == c.0)) [
  | inl same ↦
      let back : (c.0 == e.0) ≡ true = ground (arith, same) in
      let one : e.0 ≡ c.0 = (==_iff e.0 c.0).0 same in
      rw (same, back) (without-absent c rest cs (rw one at alone))
  | inr other ↦
      let back : (c.0 == e.0) ≡ false = ground (arith, other) in
      rw (other, back, without-erase c rest cs d) refl
]

run_base-without :
    (cs : List Connection) (r : Running)
    → AllDistinct r.server.connections
    → (run_base cs r).server.connections ≡ without cs r.server.connections
run_base-without [] r d = sym (without-none r.server.connections)
run_base-without (c ∷ rest) r d =
    run_base-without rest (handle_connection_close c (record r { base_queue = rest }))
      (AllDistinct-erase c.0 r.server.connections d)
    ∙ without-erase c rest r.server.connections d

run_base-settled :
    (cs : List Connection) (r : Running)
    → r.base_queue ≡ cs
    → IsCounted r
    → IsCounted (run_base cs r)
      × ((run_base cs r).base_queue ≡ [])
      × (length (run_base cs r).server.connections + length cs ≡ length r.server.connections)
run_base-settled [] r e v = (v, e, omega arith)
run_base-settled (c ∷ rest) r e v =
    let once = handle_connection_close c (record r { base_queue = rest }) in
    let (counted, empty, fewer) =
      run_base-settled rest once refl (base_runs-IsCounted c rest r e v) in
    let (mapped, _, _) =
      subst (λ (cs : List Connection). AllOpen cs r.server.connections) e v.waiting in
    let erased = length-erase c.0 r.server.connections mapped in
    (counted, empty, omega (arith, fewer, erased))

run_io-settled :
    (cs : List Connection) (r : Running)
    → r.io_queue ≡ cs
    → (r.base_queue ≡ [])
    → r.server.connection_number ≡ length r.server.connections + length cs
    → ((run_io cs r).server.connection_number ≡ length r.server.connections)
      × ((run_io cs r).server.connections ≡ r.server.connections)
      × ((run_io cs r).io_queue ≡ [])
      × ((run_io cs r).base_queue ≡ [])
run_io-settled [] r e idle counts = (omega (arith, counts), refl, e, idle)
run_io-settled (c ∷ rest) r e idle counts =
    run_io-settled rest (dec_connection (record r { io_queue = rest })) refl idle
      (omega (arith, counts))

-- From any state in which the connections are counted and no descriptor is in the map twice: once
-- the base loop has run all that it was handed and the loops of the connections what they were
-- handed then, the map has lost exactly the connections whose descriptors waited to be closed, as
-- many as there were, and keeps the others as they were and in order; the number of connections is
-- that of the map again, and nothing is left to be run.
pub settle_counts :
    (r : Running)
    → IsCounted r
    → AllDistinct r.server.connections
    → ((settle r).server.connections ≡ without r.base_queue r.server.connections)
      × (length (settle r).server.connections + length r.base_queue ≡ length r.server.connections)
      × ((settle r).server.connection_number ≡ length (settle r).server.connections)
      × ((settle r).io_queue ≡ [])
      × ((settle r).base_queue ≡ [])
settle_counts r v d =
    let after = run_base r.base_queue r in
    let (counted, empty, fewer) = run_base-settled r.base_queue r refl v in
    let (number, same, io, base) = run_io-settled after.io_queue after refl empty counted.counts in
    (
      same ∙ run_base-without r.base_queue r d,
      ap (λ (cs : List Connection). length cs + length r.base_queue) same ∙ fewer,
      number ∙ sym (ap length same),
      io,
      base,
    )
