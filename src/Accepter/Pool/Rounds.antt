-- ===== src/Accepter/Pool/Rounds.antt =====
-- How the connections are shared out among the loops of a pool.
use mathlib.Core.List.{append_assoc, append-nil}
use qg_server.Common.{
  ℕ, zero, suc, ◌+◌, ◌-◌, ◌≤◌, ◌<◌, ◌≡◌, refl, sym, ap, ◌∙◌, false, List, [], ◌∷◌, ◌++◌, Option,
  none, some, Outcome, done, fault, exhausted, ◌>>=◌, leb, ◌==◌, if◌then◌else◌, arith, length,
  get_elem?, take, drop, replicate, take-all, length-drop, Ends, ends,
}
use qg_server.Common.Int.{pos}
use qg_server.Accepter.{LoopPool, get_next_loop}
use qg_server.Accepter.Counting.{IsStarted, inside_some}
use qg_server.Accepter.Pool.{get_loop, new_loop_pool, start_threads, start, next_loops}

take-drop-suc :
    (xs : List ℕ) (c k : ℕ) (x : ℕ)
    → get_elem? xs c ≡ some x
    → take (suc k) (drop c xs) ≡ x ∷ take k (drop (suc c) xs)
take-drop-suc [] c k x e = cc
take-drop-suc (y ∷ xs) zero k x e = let same : y ≡ x = cc in rw same refl
take-drop-suc (y ∷ xs) (suc c) k x e = take-drop-suc xs c k x e

module _ (p : LoopPool) (v : IsStarted p) where
  abbrev at : ℕ → LoopPool
  at c = record p { cur_pos = c }

  abbrev wrap : ℕ → ℕ
  wrap c = if leb p.thread_size c then 0 else c

  get_next_loop-at :
      (c x : ℕ)
      → c < p.thread_size
      → get_elem? p.loops c ≡ some x
      → get_next_loop (at c) ≡ done (at (wrap (suc c)), x)
  unfolding get_next_loop
  get_next_loop-at c x below e =
      let some_loops : (p.thread_size == 0) ≡ false = ground (arith, below) in
      let one : c + 1 ≡ suc c = omega arith in rw (some_loops, e, one) refl

  next_loops-from :
      (k c : ℕ)
      → c < p.thread_size
      → c + k ≤ p.thread_size
      → next_loops k (at c) ≡ done (at (wrap (c + k)), take k (drop c p.loops))
  unfolding next_loops
  next_loops-from zero c below room =
      let same : c ≡ wrap (c + 0) = ground (arith, below) in ap (λ (i : ℕ). done (at i, [])) same
  next_loops-from (suc zero) c below room =
      let size = v.size in
      let (x, e) = inside_some p.loops c (omega (arith, below, size)) in
      let one : suc c ≡ c + 1 = omega arith in
      rw (get_next_loop-at c x below e, take-drop-suc p.loops c 0 x e, one) refl
  next_loops-from (suc (suc k)) c below room =
      let size = v.size in
      let (x, e) = inside_some p.loops c (omega (arith, below, size)) in
      let inside : suc c < p.thread_size = omega (arith, room) in
      let not_last : wrap (suc c) ≡ suc c = ground (arith, inside) in
      let rest = next_loops-from (suc k) (suc c) inside (omega (arith, room)) in
      let total : suc c + suc k ≡ c + suc (suc k) = omega arith in
      rw (get_next_loop-at c x below e, not_last, rest, take-drop-suc p.loops c (suc k) x e, total)
        refl

-- The loops of two runs, one after the other.
abbrev both_runs : ℕ → Outcome (LoopPool × List ℕ) → Outcome (LoopPool × List ℕ)
both_runs b o = do (q, xs) ← o; (r, ys) ← next_loops b q; done (r, xs ++ ys)

abbrev put_first : ℕ → Outcome (LoopPool × List ℕ) → Outcome (LoopPool × List ℕ)
put_first l o = do (last, ls) ← o; done (last, l ∷ ls)

put_first-both_runs :
    (b l : ℕ) (o : Outcome (LoopPool × List ℕ))
    → put_first l (both_runs b o) ≡ both_runs b (put_first l o)
put_first-both_runs b l (done (q, xs)) = later (next_loops b q)
  where
    later :
        (o : Outcome (LoopPool × List ℕ))
        → put_first l (o >>= λ (r, ys). done (r, xs ++ ys))
          ≡ (o >>= λ (r, ys). done (r, l ∷ xs ++ ys))
    later (done (r, ys)) = refl
    later fault = refl
    later exhausted = refl
put_first-both_runs b l fault = refl
put_first-both_runs b l exhausted = refl

next_loops-append : (a b : ℕ) (p : LoopPool) → next_loops (a + b) p ≡ both_runs b (next_loops a p)
unfolding next_loops
next_loops-append zero b p =
    let none_first : zero + b ≡ b = omega arith in rw none_first (whole (next_loops b p))
  where
    whole : (o : Outcome (LoopPool × List ℕ)) → o ≡ (o >>= λ (r, ys). done (r, [] ++ ys))
    whole (done (r, ys)) = refl
    whole fault = refl
    whole exhausted = refl
next_loops-append (suc a) b p =
    let one_more : suc a + b ≡ suc (a + b) = omega arith in
    rw one_more (first (get_next_loop p) (next_loops-append a b))
  where
    first :
        (o : Outcome (LoopPool × ℕ))
        → ((q : LoopPool) → next_loops (a + b) q ≡ both_runs b (next_loops a q))
        → (o >>= λ (moved, l). put_first l (next_loops (a + b) moved))
          ≡ both_runs b (o >>= λ (moved, l). put_first l (next_loops a moved))
    first (done (moved, l)) later =
        ap (put_first l) (later moved) ∙ put_first-both_runs b l (next_loops a moved)
    first fault later = refl
    first exhausted later = refl

-- From a pool that was started, wherever its position stands: as many connections as there are
-- threads are given one to each loop, in the order of the loops from the position on, and the pool
-- is as before.
pub next_loops_round :
    (p : LoopPool)
    → IsStarted p
    → next_loops p.thread_size p ≡ done (p, drop p.cur_pos p.loops ++ take p.cur_pos p.loops)
next_loops_round p v =
    let inside = v.inside in
    let size = v.size in
    let to_end = p.thread_size - p.cur_pos in
    let split : p.thread_size ≡ to_end + p.cur_pos = omega (arith, inside) in
    let at_end : wrap p v (p.cur_pos + to_end) ≡ 0 = ground (arith, inside) in
    let all : take to_end (drop p.cur_pos p.loops) ≡ drop p.cur_pos p.loops =
      take-all to_end (drop p.cur_pos p.loops)
        (omega (arith, length-drop p.cur_pos p.loops, size)) in
    let first = next_loops-from p v to_end p.cur_pos inside (omega (arith, inside)) in
    let back_at : wrap p v (0 + p.cur_pos) ≡ p.cur_pos = ground (arith, inside) in
    let second = next_loops-from p v p.cur_pos 0 (omega (arith, inside)) (omega (arith, inside)) in
    ap (λ (n : ℕ). next_loops n p) split
    ∙ next_loops-append to_end p.cur_pos p
    ∙ ap (both_runs p.cur_pos) first
    ∙ rw (at_end, all, second, back_at) refl

get_loop_lem :
    (waits : ℕ) (own : ℕ) (rest : List (Option ℕ))
    → get_loop (replicate waits none ++ some own ∷ rest) ≡ done own
unfolding get_loop
get_loop_lem zero own rest = refl
get_loop_lem (suc waits) own rest = get_loop_lem waits own rest

-- The loops of the threads from the i-th on.
abbrev pub loops_from : (ℕ → ℕ) → ℕ → ℕ → List ℕ
loops_from own zero i = []
loops_from own (suc n) i = own i ∷ loops_from own n (i + 1)

length-loops_from : (own : ℕ → ℕ) (n i : ℕ) → length (loops_from own n i) ≡ n
length-loops_from own zero i = refl
length-loops_from own (suc n) i = ap suc (length-loops_from own n (i + 1))

module _ (looks : ℕ → List (Option ℕ)) (own waits : ℕ → ℕ) (later : ℕ → List (Option ℕ))
    (published : (i : ℕ) → looks i ≡ replicate (waits i) none ++ some (own i) ∷ later i) where
  start_threads_lem :
      (n i : ℕ) (p : LoopPool)
      → start_threads looks n i p ≡ done (record p { loops = p.loops ++ loops_from own n i })
  unfolding start_threads
  start_threads_lem zero i p =
      ap (λ (ls : List ℕ). done (record p { loops = ls })) (sym (append-nil p.loops))
  start_threads_lem (suc n) i p =
      let seen : get_loop (looks i) ≡ done (own i) =
        ap get_loop (published i) ∙ get_loop_lem (waits i) (own i) (later i) in
      let grown = record p { loops = p.loops ++ own i ∷ [] } in
      rw (seen, start_threads_lem n (i + 1) grown)
        (ap (λ (ls : List ℕ). done (record p { loops = ls }))
          (append_assoc p.loops (own i ∷ []) (loops_from own n (i + 1))))

  -- For threads that set `loop_`, null before, to their loops, sooner or later: a pool of `n`
  -- threads, at least one, starts, and its next `n` connections are given one to the loop of each
  -- thread, in the order of the threads; then it stands as at the start.
  pub start_shares :
      (base_loop n : ℕ)
      → 0 < n
      → Ends
          (λ p. IsStarted p × (next_loops n p ≡ done (p, loops_from own n 0)))
          (start looks (new_loop_pool base_loop (pos n)))
  unfolding start
  start_shares base_loop n some_threads =
      let fresh = new_loop_pool base_loop (pos n) in
      let started = record fresh { loops = loops_from own n 0 } in
      let valid : IsStarted started = record {
        size = sym (length-loops_from own n 0);
        inside = some_threads;
      } in
      rw (start_threads_lem n 0 fresh)
        (ends (valid, next_loops_round started valid ∙ rw append-nil refl))
