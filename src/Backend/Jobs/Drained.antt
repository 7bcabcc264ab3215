-- ===== src/Backend/Jobs/Drained.antt =====
-- Stopping the pool: what is accepted is finished first, and then every goroutine is gone.
use ytshare.Base.{
  ℕ, suc, ◌+◌, ◌*◌, ◌≤◌, ◌≡◌, ◌≢◌, refl, ap, ◌∙◌, true, none, some, List, [], ◌∷◌, map, length,
  get_elem?, total, total-set_elem, arith, All,
}
use ytshare.Backend.Videos.Service.{ℤ}
use ytshare.Backend.Jobs.{
  Slot, idle, gone, busy, Pool, new_worker, Leads, receive, turn_of, turn, Event, turns, step, run,
}
use ytshare.Backend.Jobs.Kept.{
  held, IsTurn, takes, leaves, finishes, turn-IsTurn, Leads-map, run-Leads, then_run-Leads, IsKept,
  run-IsKept, step-IsKept,
}
use ytshare.Backend.Jobs.Manned.{gone_bit, one, IsManned, step-IsManned, new_worker-IsManned}

module _ {J : Type 0} where
  -- The steps that a goroutine still takes of itself.
  abbrev rank : Slot J → ℕ
  rank idle = 1
  rank gone = 0
  rank (busy job) = 2

  -- A bound on the turns that are left once nothing more is submitted.
  abbrev pub turns_left : Pool J → ℕ
  turns_left p = 2 * length p.queue + total rank p.slots

  -- What a turn leaves as it is, and what it uses up.
  record IsLess (p p' : Pool J) (n : ℕ) : Type 0 where
    left : turns_left p' + n ≤ turns_left p
    closed : p'.closed ≡ p.closed
    accepted : p'.accepted ≡ p.accepted

  IsTurn-IsLess : (i : ℕ) (p p' : Pool J) → IsTurn i p p' → IsLess p p' 1
  IsTurn-IsLess i p _ (takes job queue at e) = record {
    left =
        let first : length p.queue ≡ suc (length queue) = ap length e in
        omega (arith, first, total-set_elem rank i (busy job) idle p.slots at);
    closed = refl;
    accepted = refl;
  }
  IsTurn-IsLess i p _ (leaves at e closed) = record {
    left = omega (arith, total-set_elem rank i gone idle p.slots at);
    closed = refl;
    accepted = refl;
  }
  IsTurn-IsLess i p _ (finishes job at) = record {
    left = omega (arith, total-set_elem rank i idle (busy job) p.slots at);
    closed = refl;
    accepted = refl;
  }

  drain-IsLess :
      (is : List ℕ) (p : Pool J) → Leads (λ p'. IsLess p p' (length is)) (run (map turns is) p)
  unfolding run step
  drain-IsLess [] p = record { left = omega arith; closed = refl; accepted = refl }
  drain-IsLess (i ∷ is) p =
      then_run-Leads (λ q. IsLess p q 1) (λ q. IsLess p q (suc (length is))) (turn i p)
        (run (map turns is))
        (λ q more.
          Leads-map (λ p'. IsLess q p' (length is)) (λ p'. IsLess p p' (suc (length is)))
            (run (map turns is) q)
            (λ p' rest. record {
              left = omega (arith, more.left, rest.left);
              closed = rest.closed ∙ more.closed;
              accepted = rest.accepted ∙ more.accepted;
            })
            (drain-IsLess is q))
        (Leads-map (IsTurn i p) (λ q. IsLess p q 1) (turn i p) (IsTurn-IsLess i p)
          (turn-IsTurn i p))

  -- Where a goroutine of a stopped pool has no step left, it is gone.
  receive-moves : (i : ℕ) (queue : List J) (p : Pool J) → p.closed ≡ true → receive i queue p ≢ none
  receive-moves i [] p closed = rw closed (λ e. cc e)
  receive-moves i (job ∷ queue) p closed = λ e. cc e

  stuck-gone :
      (i : ℕ) (s : Slot J) (p : Pool J) → p.closed ≡ true → turn_of i (some s) p ≡ none → s ≡ gone
  stuck-gone i idle p closed stuck = absurd (receive-moves i p.queue p closed stuck)
  stuck-gone i gone p closed stuck = refl
  stuck-gone i (busy job) p closed stuck = cc

  turn-gone :
      (i : ℕ) (s : Slot J) (p : Pool J)
      → p.closed ≡ true
      → turn i p ≡ none
      → get_elem? p.slots i ≡ some s
      → s ≡ gone
  unfolding turn
  turn-gone i s p closed stuck at = stuck-gone i s p closed (rw at at stuck)

  All-gone :
      (slots : List (Slot J))
      → ((i : ℕ) (s : Slot J) → get_elem? slots i ≡ some s → s ≡ gone)
      → All (λ s. s ≡ gone) slots
  All-gone [] f = tt
  All-gone (s ∷ slots) f = (f 0 s refl, All-gone slots (λ i. f (suc i)))

  total-gone :
      (w v : Slot J → ℕ) (slots : List (Slot J))
      → All (λ s. s ≡ gone) slots
      → w gone ≡ v gone
      → total w slots ≡ total v slots
  total-gone w v [] all same = refl
  total-gone w v (s ∷ slots) (e, all) same =
      let rest = total-gone w v slots all same in rw e (omega arith)

  total-none : (slots : List (Slot J)) → total (λ s. 0) slots ≡ 0
  total-none [] = refl
  total-none (s ∷ slots) = omega (arith, total-none slots)

  -- All goroutines are gone, nothing waits, and what was accepted is what has finished, each job as
  -- often.
  pub record IsDone (p : Pool J) : Type 0 where
    pub slots : All (λ s. s ≡ gone) p.slots
    pub queue : p.queue ≡ []
    pub finished : (w : J → ℕ) → total w p.accepted ≡ total w p.finished

  stuck-IsDone :
      (p : Pool J)
      → IsKept p
      → IsManned p
      → p.closed ≡ true
      → ((i : ℕ) → turn i p ≡ none)
      → IsDone p
  stuck-IsDone p k m closed stuck =
      let all = All-gone p.slots (λ i s. turn-gone i s p closed (stuck i)) in
      let bits = total-gone gone_bit one p.slots all refl in
      let empty = (m.ended (omega (arith, m.manned, bits))).1 in
      record {
        slots = all;
        queue = empty;
        finished = λ w.
            let kept = k.kept w in
            let waits : total w p.queue ≡ 0 = ap (total w) empty in
            let works = total-gone (held w) (λ s. 0) p.slots all refl in
            let nothing = total-none p.slots in omega arith;
      }

  -- The turns that the goroutines of a pool take, in any order, with no other event between, are at
  -- most two for each waiting job, two for each job that is worked at, and one for each idle goroutine.
  pub drain-bounded :
      (p : Pool J) (is : List ℕ) (p' : Pool J)
      → run (map turns is) p ≡ some p'
      → length is ≤ turns_left p
  drain-bounded p is p' turned =
      let turned_less : Leads (λ q. IsLess p q (length is)) (run (map turns is) p) =
        drain-IsLess is p in
      let less : IsLess p p' (length is) = rw turned at turned_less in omega (arith, less.left)

  -- After any events at a new pool in which it was stopped, and any turns of its goroutines, in any
  -- order, behind which none of them has a turn left: all have returned, and what was accepted before
  -- is what has finished, each job as often as it was accepted.
  pub stop-drains :
      (pool_size queue_size : ℤ) (events : List (Event J)) (p : Pool J) (is : List ℕ) (p' : Pool J)
      → run events (new_worker pool_size queue_size) ≡ some p
      → p.closed ≡ true
      → run (map turns is) p ≡ some p'
      → ((i : ℕ) → turn i p' ≡ none)
      → IsDone p' × (p'.accepted ≡ p.accepted)
  stop-drains pool_size queue_size events p is p' reached closed turned stuck =
      let manned : Leads IsManned (run events (new_worker pool_size queue_size)) =
        run-Leads IsManned events _ step-IsManned (new_worker-IsManned pool_size queue_size) in
      let k : IsKept p = run-IsKept pool_size queue_size events p reached in
      let m : IsManned p = rw reached at manned in
      let kept' : Leads IsKept (run (map turns is) p) =
        run-Leads IsKept (map turns is) p step-IsKept k in
      let manned' : Leads IsManned (run (map turns is) p) =
        run-Leads IsManned (map turns is) p step-IsManned m in
      let turned_less : Leads (λ q. IsLess p q (length is)) (run (map turns is) p) =
        drain-IsLess is p in
      let k' : IsKept p' = rw turned at kept' in
      let m' : IsManned p' = rw turned at manned' in
      let less : IsLess p p' (length is) = rw turned at turned_less in
      (stuck-IsDone p' k' m' (less.closed ∙ closed) stuck, less.accepted)
