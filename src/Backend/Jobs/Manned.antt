-- ===== src/Backend/Jobs/Manned.antt =====
-- No goroutine of the pool leaves it before the end.
use ytshare.Base.{
  ℕ, zero, suc, ◌<◌, ◌≡◌, refl, Bool, true, false, none, [], if◌then◌else◌, ltb, length, total,
  total-set_elem, arith,
}
use ytshare.Backend.Videos.Service.{ℤ}
use ytshare.Backend.Jobs.{
  Slot, idle, gone, busy, Pool, new_worker, idle_slots, Leads, submit, stop, turn, Event, submits,
  turns, stops, step, size_or,
}
use ytshare.Backend.Jobs.Kept.{IsTurn, takes, leaves, finishes, turn-IsTurn, Leads-map, if-Leads}

size-positive : (z : ℤ) → 0 < size_or 4 z
size-positive (ℤ.pos n) = ground arith
size-positive (ℤ.negsuc n) = omega arith

module _ {J : Type 0} where
  -- 1 for a goroutine that is gone; 1 for each.
  abbrev pub gone_bit : Slot J → ℕ
  gone_bit idle = 0
  gone_bit gone = 1
  gone_bit (busy job) = 0

  abbrev pub one : Slot J → ℕ
  one slot = 1

  -- There is a goroutine, and one is gone only where the queue is closed and empty.
  pub record IsManned (p : Pool J) : Type 0 where
    pub manned : 0 < total one p.slots
    pub ended : 0 < total gone_bit p.slots → (p.closed ≡ true) × (p.queue ≡ [])

  IsTurn-IsManned : (i : ℕ) (p p' : Pool J) → IsManned p → IsTurn i p p' → IsManned p'
  IsTurn-IsManned i p _ m (takes job queue at e) = record {
    manned = omega (arith, m.manned, total-set_elem one i (busy job) idle p.slots at);
    ended = λ some_gone.
        let same = total-set_elem gone_bit i (busy job) idle p.slots at in
        absurd (cc (e, (m.ended (omega (arith, same, some_gone))).1));
  }
  IsTurn-IsManned i p _ m (leaves at e closed) = record {
    manned = omega (arith, m.manned, total-set_elem one i gone idle p.slots at);
    ended = λ some_gone. (closed, e);
  }
  IsTurn-IsManned i p _ m (finishes job at) = record {
    manned = omega (arith, m.manned, total-set_elem one i idle (busy job) p.slots at);
    ended = λ some_gone.
        m.ended (omega (arith, some_gone, total-set_elem gone_bit i idle (busy job) p.slots at));
  }

  submit-IsManned : (job : J) (p : Pool J) → IsManned p → Leads IsManned (submit job p)
  unfolding submit
  submit-IsManned job p m =
      if-Leads IsManned p.closed _ _ (λ closed. record { manned = m.manned; ended = m.ended })
        λ working.
          if-Leads IsManned (ltb (length p.queue) p.capacity) _ none
            (λ room. record {
              manned = m.manned;
              ended = λ some_gone. absurd (cc (working, (m.ended some_gone).0));
            })
            λ full. tt

  stop-IsManned : (p : Pool J) → IsManned p → Leads IsManned (stop p)
  unfolding stop
  stop-IsManned p m = either p.closed
    where
      either :
          (b : Bool)
          → IsManned (if b then record p { panicked = true } else record p { closed = true })
      either true = record { manned = m.manned; ended = m.ended }
      either false = record {
        manned = m.manned;
        ended = λ some_gone. (refl, (m.ended some_gone).1);
      }

  pub step-IsManned : (event : Event J) (p : Pool J) → IsManned p → Leads IsManned (step event p)
  unfolding step
  step-IsManned (submits job) p m = submit-IsManned job p m
  step-IsManned (turns i) p m =
      Leads-map (IsTurn i p) IsManned (turn i p) (λ p' t. IsTurn-IsManned i p p' m t)
        (turn-IsTurn i p)
  step-IsManned stops p m = stop-IsManned p m

  pub new_worker-IsManned : (pool_size queue_size : ℤ) → IsManned (new_worker pool_size queue_size)
  unfolding new_worker
  new_worker-IsManned pool_size queue_size = record {
    manned = manned (size_or 4 pool_size) (size-positive pool_size);
    ended = λ some_gone. absurd (omega (arith, some_gone, none_gone (size_or 4 pool_size)));
  }
    where
      manned : (n : ℕ) → 0 < n → 0 < total one (idle_slots n)
      manned zero h = absurd (omega (arith, h))
      manned (suc n) h = omega arith

      none_gone : (n : ℕ) → total gone_bit (idle_slots n) ≡ 0
      none_gone zero = refl
      none_gone (suc n) = omega (arith, none_gone n)
