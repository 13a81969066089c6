-- ===== src/Accepter/Closing/Race.antt =====
-- `incConnection` and `decConnection` of src/core/accepter.h, called by two loops at once: the base
-- loop takes a connection while the loop of another one ends that one. The count is an int without
-- a lock: ++ and -- each read it, and write it back later. What a thread has read and not yet
-- written back is its register.
use mathlib.Core.Path.{subst}
use qg_server.Common.{ℕ, ◌+◌, ◌-◌, ◌<◌, ◌≡◌, ◌⊎◌, refl, ap, inl, inr, arith}

-- A thread before, within and after its call.
pub data Place : Type 0 where
  before after : Place
  holds : ℕ → Place

pub record Count : Type 0 where
  pub connection_number : ℕ
  pub inc : Place
  pub dec : Place

abbrev pub counting : ℕ → Count
counting n = record { connection_number = n; inc = before; dec = before }

pub data Step : Count → Count → Type 0 where
  inc_reads : (c : Count) → c.inc ≡ before → Step c (record c { inc = holds c.connection_number })
  inc_writes :
      (c : Count) (n : ℕ)
      → c.inc ≡ holds n
      → Step c (record c { connection_number = n + 1; inc = after })
  dec_reads : (c : Count) → c.dec ≡ before → Step c (record c { dec = holds c.connection_number })
  dec_writes :
      (c : Count) (n : ℕ)
      → c.dec ≡ holds n
      → Step c (record c { connection_number = n - 1; dec = after })

pub data Reached (start : Count) : Count → Type 0 where
  here : Reached start start
  next : {c d : Count} → Reached start c → Step c d → Reached start d

module _ (n : ℕ) where
  -- What the count and the registers may be.
  abbrev Agrees : ℕ → Place → Place → Type 0
  Agrees m before before = m ≡ n
  Agrees m (holds a) before = (m ≡ n) × (a ≡ n)
  Agrees m after before = m ≡ n + 1
  Agrees m before (holds b) = (m ≡ n) × (b ≡ n)
  Agrees m (holds a) (holds b) = (m ≡ n) × (a ≡ n) × (b ≡ n)
  Agrees m after (holds b) = (m ≡ n + 1) × ((b ≡ n) ⊎ (b ≡ n + 1))
  Agrees m before after = m ≡ n - 1
  Agrees m (holds a) after = (m ≡ n - 1) × ((a ≡ n) ⊎ (a ≡ n - 1))
  Agrees m after after = (m ≡ n) ⊎ (m ≡ n + 1) ⊎ (m ≡ n - 1)

  inc_read : (m : ℕ) (d : Place) → Agrees m before d → Agrees m (holds m) d
  inc_read m before v = (v, v)
  inc_read m (holds b) (v, w) = (v, v, w)
  inc_read m after v = (v, inr v)

  dec_read : (m : ℕ) (i : Place) → Agrees m i before → Agrees m i (holds m)
  dec_read m before v = (v, v)
  dec_read m (holds a) (v, w) = (v, w, v)
  dec_read m after v = (v, inr v)

  inc_written : (m a : ℕ) (d : Place) → 0 < n → Agrees m (holds a) d → Agrees (a + 1) after d
  inc_written m a before some_open (v, w) = ap (λ (k : ℕ). k + 1) w
  inc_written m a (holds b) some_open (v, w, u) = (ap (λ (k : ℕ). k + 1) w, inl u)
  inc_written m a after some_open (v, inl w) = inr (inl (ap (λ (k : ℕ). k + 1) w))
  inc_written m a after some_open (v, inr w) = inl (omega (arith, some_open, w))

  dec_written : (m b : ℕ) (i : Place) → Agrees m i (holds b) → Agrees (b - 1) i after
  dec_written m b before (v, w) = ap (λ (k : ℕ). k - 1) w
  dec_written m b (holds a) (v, w, u) = (ap (λ (k : ℕ). k - 1) u, inl w)
  dec_written m b after (v, inl w) = inr (inr (ap (λ (k : ℕ). k - 1) w))
  dec_written m b after (v, inr w) = inl (omega (arith, w))

  abbrev IsAgreed : Count → Type 0
  IsAgreed c = Agrees c.connection_number c.inc c.dec

  inc_at : (c : Count) (p : Place) → c.inc ≡ p → IsAgreed c → Agrees c.connection_number p c.dec
  inc_at c p e v = subst (λ (q : Place). Agrees c.connection_number q c.dec) e v

  dec_at : (c : Count) (p : Place) → c.dec ≡ p → IsAgreed c → Agrees c.connection_number c.inc p
  dec_at c p e v = subst (λ (q : Place). Agrees c.connection_number c.inc q) e v

  Step-IsAgreed : {c d : Count} → 0 < n → Step c d → IsAgreed c → IsAgreed d
  Step-IsAgreed some_open (inc_reads c e) v =
      inc_read c.connection_number c.dec (inc_at c before e v)
  Step-IsAgreed some_open (inc_writes c a e) v =
      inc_written c.connection_number a c.dec some_open (inc_at c (holds a) e v)
  Step-IsAgreed some_open (dec_reads c e) v =
      dec_read c.connection_number c.inc (dec_at c before e v)
  Step-IsAgreed some_open (dec_writes c b e) v =
      dec_written c.connection_number b c.inc (dec_at c (holds b) e v)

  Reached-IsAgreed : {c : Count} → 0 < n → Reached (counting n) c → IsAgreed c
  Reached-IsAgreed some_open here = refl
  Reached-IsAgreed some_open (next r s) = Step-IsAgreed some_open s (Reached-IsAgreed some_open r)

-- Both calls are over, and the count is `m`.
abbrev pub over : ℕ → Count
over m = record { connection_number = m; inc = after; dec = after }

one_at_a_time : (n : ℕ) → Reached (counting n) (over n)
one_at_a_time n =
    let c1 = record (counting n) { inc = holds n } in
    let c2 = record c1 { connection_number = n + 1; inc = after } in
    let c3 = record c2 { dec = holds (n + 1) } in
    let all =
      next
        (next (next (next here (inc_reads (counting n) refl)) (inc_writes c1 n refl))
          (dec_reads c2 refl))
        (dec_writes c3 (n + 1) refl) in
    let same : n + 1 - 1 ≡ n = omega arith in
    subst (λ (k : ℕ). Reached (counting n) (over k)) same all

dec_lost : (n : ℕ) → Reached (counting n) (over (n + 1))
dec_lost n =
    let c1 = record (counting n) { inc = holds n } in
    let c2 = record c1 { dec = holds n } in
    let c3 = record c2 { connection_number = n - 1; dec = after } in
    next
      (next (next (next here (inc_reads (counting n) refl)) (dec_reads c1 refl))
        (dec_writes c2 n refl))
      (inc_writes c3 n refl)

inc_lost : (n : ℕ) → Reached (counting n) (over (n - 1))
inc_lost n =
    let c1 = record (counting n) { inc = holds n } in
    let c2 = record c1 { dec = holds n } in
    let c3 = record c2 { connection_number = n + 1; inc = after } in
    next
      (next (next (next here (inc_reads (counting n) refl)) (dec_reads c1 refl))
        (inc_writes c2 n refl))
      (dec_writes c3 n refl)

-- What the count is when both calls are over.
pub record Interleaved (n : ℕ) : Type 0 where
  pub only : (m : ℕ) → Reached (counting n) (over m) → (m ≡ n) ⊎ (m ≡ n + 1) ⊎ (m ≡ n - 1)
  pub right : Reached (counting n) (over n)
  pub more : Reached (counting n) (over (n + 1))
  pub less : Reached (counting n) (over (n - 1))

-- While at least one connection is open, one that comes and one that ends in another loop leave,
-- by the order in which the two threads read and write the count, a count that is right, one too
-- many or one too few, each of them in some order, and no other.
pub race_outcomes : (n : ℕ) → 0 < n → Interleaved n
race_outcomes n some_open = record {
  only = λ m r. Reached-IsAgreed n some_open r;
  right = one_at_a_time n;
  more = dec_lost n;
  less = inc_lost n;
}
