-- ===== src/EventLoop/Construct/Ended.antt =====
-- The end of a loop, whose waker uses its handler after the loop has deleted it.
use qg_server.Common.{
  ℕ, ◌≡◌, refl, true, Bool, ◌||◌, ◌==◌, List, [], ◌∷◌, Option, none, some, Outcome, done, fault,
  ◌>>=◌, assert, or_fault, get_elem?, length, ◌-◌, not, false, arith,
}
use qg_server.Pollpoller
use qg_server.Pollpoller.{Pollpoller, no_events}
use qg_server.EventLoop.Registry.{Registry}
use qg_server.EventLoop.Construct.{
  Waker, is_among, delete_handlers, destroy_waker, destroy_event_loop,
}

-- The call faults, or ends with a value of which `P` holds.
data MayFault {ℓ κ} {A : Type ℓ} (P : A → Type κ) : Outcome A → Type (ℓ ⊔ κ) where
  faults : MayFault P fault
  ended : {a : A} → P a → MayFault P (done a)

MayFault-then {ℓ ℓ' κ κ'} :
    {A : Type ℓ} {B : Type ℓ'} {P : A → Type κ} {Q : B → Type κ'} {m : Outcome A}
    {f : A → Outcome B}
    → MayFault P m
    → ((a : A) → P a → MayFault Q (f a))
    → MayFault Q (m >>= f)
MayFault-then faults next = faults
MayFault-then (ended p) next = next _ p

module _ {ℓ κ} {B : Type ℓ} {Q : B → Type κ} where
  assert-MayFault :
      (b : Bool) {f : Unit {0} → Outcome B}
      → ((u : Unit {0}) → MayFault Q (f u))
      → MayFault Q (assert b >>= f)
  assert-MayFault true after = after tt
  assert-MayFault false after = faults

  or_fault-MayFault {ℓ'} :
      {A : Type ℓ'} (o : Option A) {f : A → Outcome B}
      → ((a : A) → MayFault Q (f a))
      → MayFault Q (or_fault o >>= f)
  or_fault-MayFault none after = faults
  or_fault-MayFault (some a) after = after a

remove_handler-MayFault :
    (h : ℕ) (p : Pollpoller) → MayFault (λ _. Unit {0}) (Pollpoller.remove_handler h p)
unfolding Pollpoller.remove_handler
remove_handler-MayFault h p = or_fault-MayFault (p.store h).index λ index.
    or_fault-MayFault (get_elem? p.fds index) λ current.
      or_fault-MayFault (p.event_handler_map (p.store h).handle) λ found.
        assert-MayFault (found == h) λ _. assert-MayFault (no_events current.revents) λ _.
          or_fault-MayFault (get_elem? p.fds (length p.fds - 1))
            λ back. or_fault-MayFault (p.event_handler_map back.fd) λ last. ended tt

-- A handler that was deleted, or is still to be deleted.
delete_handlers-MayFault :
    (k : ℕ) (hs freed : List ℕ) (r : Registry)
    → (is_among k hs || is_among k freed) ≡ true
    → MayFault (λ s. is_among k s.0 ≡ true) (delete_handlers hs freed r)
unfolding delete_handlers
delete_handlers-MayFault k [] freed r e = ended e
delete_handlers-MayFault k (h ∷ hs) freed r e =
    let moved : (is_among k hs || is_among k (h ∷ freed)) ≡ true = ground (arith, e) in
    assert-MayFault (not (is_among h freed)) λ _.
      MayFault-then (remove_handler-MayFault h r.poller)
        λ poller _. delete_handlers-MayFault k hs (h ∷ freed) (record r { poller = poller }) moved

then-fault {ℓ ℓ' κ} :
    {A : Type ℓ} {B : Type ℓ'} {P : A → Type κ} {m : Outcome A} {f : A → Outcome B}
    → MayFault P m
    → ((a : A) → P a → f a ≡ fault)
    → (m >>= f) ≡ fault
then-fault faults next = refl
then-fault (ended p) next = next _ p

-- The end of a loop is a fault, whatever handlers are registered with it beside that of its waker,
-- which the loop deletes with the others, and which the waker uses and deletes after it.
pub destroy_event_loop_faults :
    (w : Waker) (handlers : List ℕ) (r : Registry)
    → ((fd h : ℕ) → r.handler_map fd ≡ some h → is_among h handlers ≡ true)
    → r.handler_map w.read_end ≡ some w.event_handler
    → destroy_event_loop w handlers r ≡ fault
unfolding destroy_event_loop destroy_waker
destroy_event_loop_faults w handlers r complete mine =
    then-fault
      (delete_handlers-MayFault w.event_handler handlers [] r
        (ground (arith, complete w.read_end w.event_handler mine)))
      λ (freed, left) e. rw e refl
