-- ===== src/Epoll/Waiting.antt =====
-- When a wait ends, and with what.
use mathlib.Core.List.{append-nil, append_assoc}
use mathlib.Core.Path.{subst}
use qg_server.Common.{
  ℕ, zero, suc, ◌+◌, ◌<◌, ◌≡◌, refl, sym, ap, ◌∙◌, true, false, List, [], ◌∷◌, ◌++◌, some, Outcome,
  done, exhausted, get_elem?, length, length-append, inl, inr, ◌⊎◌, Bool-cases, arith, ◌==◌, ◌≢◌,
}
use qg_server.Common.Int.{ℤ, pos, negsuc, ltb_ℤ}
use qg_server.Epoll.{Epoll, EventStatus, max_events_size, push_events, rounds, wait_loop, wait}

-- What epoll_wait is said to do: it stores as many events as it returns.
get_elem?-after :
    (before es : List EventStatus) (e : EventStatus)
    → get_elem? (before ++ e ∷ es) (length before) ≡ some e
get_elem?-after [] es e = refl
get_elem?-after (b ∷ before) es e = get_elem?-after before es e

push_events-all :
    (before evlist res : List EventStatus)
    → push_events (length evlist) (length before) (before ++ evlist) res ≡ done (res ++ evlist)
unfolding push_events
push_events-all before [] res = ap done (sym (append-nil res))
push_events-all before (e ∷ es) res =
    let split : before ++ e ∷ es ≡ (before ++ e ∷ []) ++ es =
      sym (append_assoc before (e ∷ []) es) in
    let more : length before + 1 ≡ length (before ++ e ∷ []) =
      sym (length-append before (e ∷ [])) in
    let rest : push_events (length es) (length before + 1) (before ++ e ∷ es) (res ++ e ∷ [])
        ≡ done ((res ++ e ∷ []) ++ es) =
      rw (more, split) (push_events-all (before ++ e ∷ []) es (res ++ e ∷ [])) in
    rw (get_elem?-after before es e) (rest ∙ ap done (append_assoc res (e ∷ []) es))

length-zero : (es : List EventStatus) → length es ≡ 0 → es ≡ []
length-zero [] e = refl
length-zero (x ∷ es) e = absurd (omega (arith, e))

quiet_rounds : (ret : ℤ) → ltb_ℤ (pos 0) ret ≡ false → rounds ret ≡ 0
quiet_rounds (pos n) e = ground (arith, e)
quiet_rounds (negsuc n) e = refl

module _ (waits : ℕ → ℤ × List EventStatus) where
  abbrev IsQuiet : ℕ → Type 0
  IsQuiet n = ltb_ℤ (pos 0) (waits n).0 ≡ false

  -- The first call that reports an event.
  pub record First (fuel : ℕ) (r : Outcome (List EventStatus × ℕ)) : Type 0 where
    pub call : ℕ
    pub within : call < fuel
    pub quiet : (m : ℕ) → m < call → ltb_ℤ (pos 0) (waits m).0 ≡ false
    pub reports : ltb_ℤ (pos 0) (waits call).0 ≡ true
    pub result : r ≡ done ((waits call).1, call + 1)

  pub record Never (fuel : ℕ) (r : Outcome (List EventStatus × ℕ)) : Type 0 where
    pub quiet : (m : ℕ) → m < fuel → ltb_ℤ (pos 0) (waits m).0 ≡ false
    pub result : r ≡ exhausted

  more-IsQuiet :
      (n : ℕ) → ((m : ℕ) → m < n → IsQuiet m) → IsQuiet n → (m : ℕ) → m < n + 1 → IsQuiet m
  more-IsQuiet n before here m h = elim (Bool-cases (m == n)) [
    | inl e ↦ let same : m ≡ n = ground (arith, e) in rw same here
    | inr e ↦ let apart : m ≢ n = ground (arith, e) in before m (omega (arith, h, apart))
  ]

  quiet_stores_none :
      (n : ℕ) → rounds (waits n).0 ≡ length (waits n).1 → IsQuiet n → (waits n).1 ≡ []
  quiet_stores_none n stored quiet =
      let few : rounds (waits n).0 ≡ 0 = quiet_rounds (waits n).0 quiet in
      length-zero (waits n).1 (sym stored ∙ few)

  module _ (stored : (n : ℕ) → rounds (waits n).0 ≡ length (waits n).1) where
    wait_loop-cases :
        (fuel n : ℕ)
        → ((m : ℕ) → m < n → IsQuiet m)
        → First (n + fuel) (wait_loop waits fuel n [])
          ⊎ Never (n + fuel) (wait_loop waits fuel n [])
    unfolding wait_loop
    wait_loop-cases zero n before =
        inr (record { quiet = λ m h. before m (omega (arith, h)); result = refl })
    wait_loop-cases (suc fuel) n before =
        let pushed : push_events (rounds (waits n).0) 0 (waits n).1 [] ≡ done (waits n).1 =
          rw (stored n) (push_events-all [] (waits n).1 []) in
        elim (Bool-cases (ltb_ℤ (pos 0) (waits n).0)) [
          | inl reports ↦ inl (record {
            call = n;
            within = omega arith;
            quiet = before;
            reports = reports;
            result = rw (pushed, reports) refl;
          })
          | inr quiet ↦
              let none_stored = quiet_stores_none n (stored n) quiet in
              let same : wait_loop waits (suc fuel) n [] ≡ wait_loop waits fuel (n + 1) [] =
                rw (pushed, quiet, none_stored) refl in
              let later = wait_loop-cases fuel (n + 1) (more-IsQuiet n before quiet) in
              elim later [
                | inl f ↦ inl (record {
                  call = f.call;
                  within = omega (arith, f.within);
                  quiet = f.quiet;
                  reports = f.reports;
                  result = same ∙ f.result;
                })
                | inr g ↦ inr (record {
                  quiet = λ m h. g.quiet m (omega (arith, h));
                  result = same ∙ g.result;
                })
              ]
        ]

-- An epoll that stores as many events as it returns: with any fuel, a wait gives the events of the
-- first call of epoll_wait that returns a positive number, in order, and makes no further call; if
-- none of as many calls as there is fuel returns one, it is still waiting. An error, for which
-- epoll_wait returns -1, is waited on like the end of the timeout.
pub wait-cases :
    {K : Type 0} (epoll : Epoll K) (k : K)
    → ((n : ℕ)
        → rounds (epoll.wait k max_events_size n).0 ≡ length (epoll.wait k max_events_size n).1)
    → (fuel : ℕ)
    → First (epoll.wait k max_events_size) fuel (wait epoll fuel k)
      ⊎ Never (epoll.wait k max_events_size) fuel (wait epoll fuel k)
unfolding wait
wait-cases epoll k stored fuel =
    let waits = epoll.wait k max_events_size in
    let same : 0 + fuel ≡ fuel = omega arith in
    subst (λ (f : ℕ). First waits f (wait epoll fuel k) ⊎ Never waits f (wait epoll fuel k)) same
      (wait_loop-cases waits stored fuel 0 (λ m h. absurd (omega (arith, h))))
