-- ===== src/Kqueue/Filters.antt =====
-- The filters that the kernel has after the changes that the poller for kqueue asked for.
use qg_server.Common.{
  ℕ, ◌≡◌, ◌≢◌, refl, sym, ap, ◌∙◌, inl, inr, Bool, true, false, Bool-cases, ◌&&◌, List, [], ◌∷◌,
  none, some, ◌==◌, ==_iff, if◌then◌else◌, arith,
}
use qg_server.Common.Maps.{lookup, erase, lookup-erase, IsMap}
use qg_server.EventHandler.{EventHandler, is_reading, is_writing}
use qg_server.Kqueue.{Filter, evfilt_read, evfilt_write, evfilt_other, KeventChange, set_filters}

abbrev pub same_filter : Filter → Filter → Bool
same_filter evfilt_read evfilt_read = true
same_filter evfilt_write evfilt_write = true
same_filter evfilt_other evfilt_other = true
same_filter _ _ = false

-- Whether the kernel watches a descriptor for a filter: as the last change of the two says.
abbrev pub watches : List KeventChange → ℕ → Filter → Bool
watches [] fd f = false
watches (c ∷ cs) fd f =
    if c.kevent.ident == fd && same_filter c.kevent.filter f then c.adds else watches cs fd f

pub record Shown (cs : List KeventChange) (fd : ℕ) (e : EventHandler) : Type 0 where
  pub handle : e.handle ≡ fd
  pub read : is_reading e ≡ true → watches cs fd evfilt_read ≡ true
  pub write : is_writing e ≡ true → watches cs fd evfilt_write ≡ true

watches-others :
    (adds : Bool) (e : EventHandler) (cs : List KeventChange) (fd : ℕ) (f : Filter)
    → fd ≢ e.handle
    → watches (set_filters adds e cs) fd f ≡ watches cs fd f
unfolding set_filters
watches-others adds e cs fd f apart = ground (arith, apart)

pub set_filters-Shown :
    (e : EventHandler) (cs : List KeventChange) → Shown (set_filters true e cs) e.handle e
unfolding set_filters
set_filters-Shown e cs = record {
  handle = refl;
  read = λ r. ground (arith, r);
  write = λ w. ground (arith, w);
}

Shown-others :
    (adds : Bool) (e : EventHandler) (cs : List KeventChange) (fd : ℕ) (k : EventHandler)
    → fd ≢ e.handle
    → Shown cs fd k
    → Shown (set_filters adds e cs) fd k
Shown-others adds e cs fd k apart s = record {
  handle = s.handle;
  read = λ r. watches-others adds e cs fd evfilt_read apart ∙ s.read r;
  write = λ w. watches-others adds e cs fd evfilt_write apart ∙ s.write w;
}

-- Every registered handler is shown, or every one with another descriptor than `d`.
abbrev pub AllShown : List KeventChange → List (ℕ × ℕ) → (ℕ → EventHandler) → Type 0
AllShown cs handlers store = (fd k : ℕ) → lookup fd handlers ≡ some k → Shown cs fd (store k)

abbrev pub OthersShown : ℕ → List KeventChange → List (ℕ × ℕ) → (ℕ → EventHandler) → Type 0
OthersShown d cs handlers store =
    (fd k : ℕ) → fd ≢ d → lookup fd handlers ≡ some k → Shown cs fd (store k)

-- The filters of one handler are added, and the others are as before.
pub AllShown-set :
    (h : ℕ) (cs : List KeventChange) (handlers : List (ℕ × ℕ)) (store : ℕ → EventHandler)
    → lookup (store h).handle handlers ≡ some h
    → OthersShown (store h).handle cs handlers store
    → AllShown (set_filters true (store h) cs) handlers store
AllShown-set h cs handlers store mapped others fd k found =
    let e = store h in
    elim (Bool-cases (fd == e.handle)) [
      | inl same ↦
          let one : fd ≡ e.handle = (==_iff fd e.handle).0 same in
          let key : lookup fd handlers ≡ some h = ap (λ (i : ℕ). lookup i handlers) one ∙ mapped in
          let it : k ≡ h = cc in rw (it, one) (set_filters-Shown e cs)
      | inr other ↦
          let apart : fd ≢ e.handle = ground (arith, other) in
          Shown-others true e cs fd (store k) apart (others fd k apart found)
    ]

-- A descriptor is erased, and its filters are deleted.
pub AllShown-erase :
    (e : EventHandler) (cs : List KeventChange) (handlers : List (ℕ × ℕ)) (store : ℕ → EventHandler)
    → IsMap handlers
    → AllShown cs handlers store
    → AllShown (set_filters false e cs) (erase e.handle handlers) store
AllShown-erase e cs handlers store keys all fd k found = elim (Bool-cases (fd == e.handle)) [
  | inl same ↦
      let one : fd ≡ e.handle = (==_iff fd e.handle).0 same in
      let gone : lookup fd (erase e.handle handlers) ≡ none =
        ap (λ (i : ℕ). lookup i (erase e.handle handlers)) one ∙ keys e.handle in
      absurd cc
  | inr other ↦
      let apart : fd ≢ e.handle = ground (arith, other) in
      let old = sym (lookup-erase e.handle fd handlers apart) ∙ found in
      Shown-others false e cs fd (store k) apart (all fd k old)
]

pub lookup-first : (d h : ℕ) (cs : List (ℕ × ℕ)) → lookup d ((d, h) ∷ cs) ≡ some h
lookup-first d h cs = ground arith

pub lookup-later :
    (d h fd : ℕ) (cs : List (ℕ × ℕ)) → fd ≢ d → lookup fd ((d, h) ∷ cs) ≡ lookup fd cs
lookup-later d h fd cs apart = ground (arith, apart)
