-- ===== src/Accepter/Pool/Handshake/Met.antt =====
-- What `LoopThread::getLoop` returns, and that it returns.
use qg_server.Common.{ℕ, ◌≡◌, ◌≢◌, ◌⊎◌, refl, sym, ap, inl, inr, Option, none, some}
use qg_server.Accepter.Pool.{LoopThread}
use qg_server.Accepter.Pool.Handshake.{
  Maker, making, looping, Asker, outside, asleep, woken, answered, Meeting, new_meeting, answer,
  look, notify_one, publish_own, Step, calls, wakes, looks, publishes, Reached, here, next,
}

module _ (own : ℕ) (memory : Option ℕ) where
  -- What the member holds, by where the thread of the loop is.
  abbrev Holds : Maker → Option ℕ → Type 0
  Holds making o = o ≡ memory
  Holds looping o = o ≡ some own

  -- A thread that sleeps in getLoop will be notified.
  abbrev Answers : Maker → Asker → Type 0
  Answers m outside = Unit {0}
  Answers m asleep = m ≡ making
  Answers m woken = Unit {0}
  Answers m (answered l) = (l ≡ own) ⊎ (memory ≡ some l)

  record IsMet (m : Meeting) : Type 0 where
    holds : Holds m.maker m.thread.loop
    answers : Answers m.maker m.asker

  look-Answers : (m : Maker) (o : Option ℕ) → Holds m o → Answers m (answer o)
  look-Answers making none h = refl
  look-Answers making (some l) h = inr (sym h)
  look-Answers looping none h = cc
  look-Answers looping (some l) h = inl cc

  notified-Answers : (m : Maker) (a : Asker) → Answers m a → Answers looping (notify_one a)
  notified-Answers m outside h = tt
  notified-Answers m asleep h = tt
  notified-Answers m woken h = tt
  notified-Answers m (answered l) h = h

  Step-IsMet : {m n : Meeting} → Step own m n → IsMet m → IsMet n
  Step-IsMet (calls m e) v = record {
    holds = v.holds;
    answers = look-Answers m.maker m.thread.loop v.holds;
  }
  Step-IsMet (wakes m e) v = record { holds = v.holds; answers = tt }
  Step-IsMet (looks m e) v = record {
    holds = v.holds;
    answers = look-Answers m.maker m.thread.loop v.holds;
  }
  Step-IsMet (publishes m e) v = record {
    holds = refl;
    answers = notified-Answers m.maker m.asker v.answers;
  }

  Reached-IsMet : {m : Meeting} → Reached own (new_meeting memory) m → IsMet m
  Reached-IsMet here = record { holds = refl; answers = tt }
  Reached-IsMet (next r s) = Step-IsMet s (Reached-IsMet r)

-- getLoop has its result in a state that is reached from `m`.
pub record Finishes (own : ℕ) (m : Meeting) : Type 0 where
  pub last : Meeting
  pub reached : Reached own m last
  pub result : ℕ
  pub returned : last.asker ≡ answered result

pub record Meets (own : ℕ) (memory : Option ℕ) (m : Meeting) : Type 0 where
  pub right : (l : ℕ) → m.asker ≡ answered l → (l ≡ own) ⊎ (memory ≡ some l)
  pub heard : m.asker ≡ asleep → m.maker ≡ making
  pub finishes : Finishes own m

module _ (own : ℕ) where
  abbrev at : LoopThread → Maker → Asker → Meeting
  at t k a = record { thread = t; maker = k; asker = a }

  -- The loop is published, and the other thread looks.
  abbrev after_publishing :
      (m : Meeting)
      → m.maker ≡ making
      → Step own (publish_own own m) (look (publish_own own m))
      → Finishes own m
  after_publishing m e looked = record {
    last = look (publish_own own m);
    reached = next (next here (publishes m e)) looked;
    result = own;
    returned = refl;
  }

  -- The other thread looks after the loop was published.
  abbrev after_look :
      (m : Meeting) → m.thread.loop ≡ some own → Step own m (look m) → Finishes own m
  after_look m e looked = record {
    last = look m;
    reached = next here looked;
    result = own;
    returned = ap answer e;
  }

  finish :
      (memory : Option ℕ) (t : LoopThread) (k : Maker) (a : Asker)
      → IsMet own memory (at t k a)
      → Finishes own (at t k a)
  finish memory t making outside v =
      let m = at t making outside in after_publishing m refl (calls (publish_own own m) refl)
  finish memory t looping outside v =
      let m = at t looping outside in after_look m v.holds (calls m refl)
  finish memory t making asleep v =
      let m = at t making asleep in after_publishing m refl (looks (publish_own own m) refl)
  finish memory t looping asleep v = absurd (making_first v.answers)
    where
      making_first : looping ≢ making
      making_first e = cc
  finish memory t making woken v =
      let m = at t making woken in after_publishing m refl (looks (publish_own own m) refl)
  finish memory t looping woken v =
      let m = at t looping woken in after_look m v.holds (looks m refl)
  finish memory t k (answered l) v = record {
    last = at t k (answered l);
    reached = here;
    result = l;
    returned = refl;
  }

  right_answer :
      (memory : Option ℕ) (k : Maker) (a : Asker) (l : ℕ)
      → Answers own memory k a
      → a ≡ answered l
      → (l ≡ own) ⊎ (memory ≡ some l)
  right_answer memory k outside l v e = cc
  right_answer memory k asleep l v e = cc
  right_answer memory k woken l v e = cc
  right_answer memory k (answered g) l v e = let same : g ≡ l = cc in rw (sym same) v

  heard_asleep :
      (memory : Option ℕ) (k : Maker) (a : Asker) → Answers own memory k a → a ≡ asleep → k ≡ making
  heard_asleep memory k outside v e = cc
  heard_asleep memory k asleep v e = v
  heard_asleep memory k woken v e = cc
  heard_asleep memory k (answered g) v e = cc

  -- However the thread of a loop and the thread that calls getLoop take turns, with waits that may
  -- end of themselves: what getLoop has returned is the loop of that thread, or what the memory of
  -- the member held at the start; whenever the caller sleeps, the thread of the loop has not yet
  -- reached its notify_one, so that no wake-up is lost; and from there the two threads have steps
  -- that lead to the result of getLoop.
  pub Reached-Meets :
      (memory : Option ℕ) (m : Meeting) → Reached own (new_meeting memory) m → Meets own memory m
  Reached-Meets memory m r =
      let v = Reached-IsMet own memory r in
      record {
        right = λ l e. right_answer memory m.maker m.asker l v.answers e;
        heard = λ e. heard_asleep memory m.maker m.asker v.answers e;
        finishes = finish memory m.thread m.maker m.asker v;
      }

-- What the memory held, if it is no null pointer, is what getLoop returns to a caller that is
-- faster than the thread of the loop.
pub garbage_returned :
    (own g : ℕ)
    → (m : Meeting) × Reached own (new_meeting (some g)) m
      × (m.asker ≡ answered g)
      × (m.maker ≡ making)
garbage_returned own g =
    let start = new_meeting (some g) in (look start, next here (calls start refl), refl, refl)
