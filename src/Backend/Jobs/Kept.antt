-- ===== src/Backend/Jobs/Kept.antt =====
-- No job is lost, and none is run twice.
use ytshare.Base.{
  ℕ, zero, suc, ◌+◌, ◌≤◌, ◌≡◌, refl, ap, Bool, true, false, Option, none, some, List, [], ◌∷◌, ◌++◌,
  if◌then◌else◌, ltb, length, length-append, get_elem?, set_elem, total, total-append,
  total-set_elem, arith, ltb→lt,
}
use ytshare.Backend.Videos.Service.{ℤ}
use ytshare.Backend.Jobs.{
  Slot, idle, gone, busy, Pool, new_worker, idle_slots, Leads, submit, stop, receive, turn_of, turn,
  Event, submits, turns, stops, step, run, then_run, size_or,
}

module _ {J : Type 0} where
  -- The weight of what a goroutine works at.
  abbrev pub held : (J → ℕ) → Slot J → ℕ
  held w idle = 0
  held w gone = 0
  held w (busy job) = w job

  -- Every accepted job is waiting, being worked at, or finished, and just one of them, as often as
  -- it was accepted; and the queue is within its capacity.
  pub record IsKept (p : Pool J) : Type 0 where
    pub kept :
        (w : J → ℕ)
        → total w p.accepted ≡ total w p.queue + total (held w) p.slots + total w p.finished
    pub bounded : length p.queue ≤ p.capacity

  -- A turn of the goroutine `i`: it takes a job, leaves the pool, or finishes a job.
  pub data IsTurn (i : ℕ) (p : Pool J) : Pool J → Type 0 where
    takes :
        (job : J) (queue : List J)
        → get_elem? p.slots i ≡ some idle
        → p.queue ≡ job ∷ queue
        → IsTurn i p (record p { queue = queue; slots = set_elem i (busy job) p.slots })
    leaves :
        get_elem? p.slots i ≡ some idle
        → p.queue ≡ []
        → p.closed ≡ true
        → IsTurn i p (record p { slots = set_elem i gone p.slots })
    finishes :
        (job : J)
        → get_elem? p.slots i ≡ some (busy job)
        → IsTurn i p
            (record p { slots = set_elem i idle p.slots; finished = p.finished ++ job ∷ [] })

  -- A test in front of two steps.
  pub if-Leads :
      (P : Pool J → Type 0) (b : Bool) (one other : Option (Pool J))
      → (b ≡ true → Leads P one)
      → (b ≡ false → Leads P other)
      → Leads P (if b then one else other)
  if-Leads P true one other f g = f refl
  if-Leads P false one other f g = g refl

  receive-IsTurn :
      (i : ℕ) (queue : List J) (p : Pool J)
      → get_elem? p.slots i ≡ some idle
      → p.queue ≡ queue
      → Leads (IsTurn i p) (receive i queue p)
  receive-IsTurn i (job ∷ queue) p at e = takes job queue at e
  receive-IsTurn i [] p at e =
      if-Leads (IsTurn i p) p.closed _ none (λ closed. leaves at e closed) (λ working. tt)

  turn_of-IsTurn :
      (i : ℕ) (slot : Option (Slot J)) (p : Pool J)
      → get_elem? p.slots i ≡ slot
      → Leads (IsTurn i p) (turn_of i slot p)
  turn_of-IsTurn i none p at = tt
  turn_of-IsTurn i (some gone) p at = tt
  turn_of-IsTurn i (some idle) p at = receive-IsTurn i p.queue p at refl
  turn_of-IsTurn i (some (busy job)) p at = finishes job at

  pub turn-IsTurn : (i : ℕ) (p : Pool J) → Leads (IsTurn i p) (turn i p)
  unfolding turn
  turn-IsTurn i p = turn_of-IsTurn i (get_elem? p.slots i) p refl

  pub Leads-map :
      (P Q : Pool J → Type 0) (o : Option (Pool J))
      → ((p : Pool J) → P p → Q p)
      → Leads P o
      → Leads Q o
  Leads-map P Q none f h = tt
  Leads-map P Q (some p) f h = f p h

  submit-IsKept : (job : J) (p : Pool J) → IsKept p → Leads IsKept (submit job p)
  unfolding submit
  submit-IsKept job p k =
      if-Leads IsKept p.closed _ _ (λ closed. record { kept = k.kept; bounded = k.bounded })
        λ working.
          if-Leads IsKept (ltb (length p.queue) p.capacity) _ none
            (λ room. record {
              kept = λ w.
                  let all = k.kept w in
                  let waits = total-append w p.queue (job ∷ []) in
                  let sent = total-append w p.accepted (job ∷ []) in
                  omega (arith, all, waits, sent);
              bounded =
                  let longer = length-append p.queue (job ∷ []) in
                  let free = ltb→lt (length p.queue) p.capacity room in omega (arith, longer, free);
            })
            λ full. tt

  IsTurn-IsKept : (i : ℕ) (p p' : Pool J) → IsKept p → IsTurn i p p' → IsKept p'
  IsTurn-IsKept i p _ k (takes job queue at e) = record {
    kept = λ w.
        let all = k.kept w in
        let slots = total-set_elem (held w) i (busy job) idle p.slots at in
        let first : total w p.queue ≡ w job + total w queue = ap (total w) e in omega arith;
    bounded =
        let first : length p.queue ≡ suc (length queue) = ap length e in omega (arith, k.bounded);
  }
  IsTurn-IsKept i p _ k (leaves at e closed) = record {
    kept = λ w.
        let all = k.kept w in
        let slots = total-set_elem (held w) i gone idle p.slots at in omega arith;
    bounded = k.bounded;
  }
  IsTurn-IsKept i p _ k (finishes job at) = record {
    kept = λ w.
        let all = k.kept w in
        let slots = total-set_elem (held w) i idle (busy job) p.slots at in
        let done = total-append w p.finished (job ∷ []) in omega arith;
    bounded = k.bounded;
  }

  stop-IsKept : (p : Pool J) → IsKept p → Leads IsKept (stop p)
  unfolding stop
  stop-IsKept p k = Bool-elim p.closed
    where
      Bool-elim :
          (b : Bool)
          → IsKept (if b then record p { panicked = true } else record p { closed = true })
      Bool-elim true = record { kept = k.kept; bounded = k.bounded }
      Bool-elim false = record { kept = k.kept; bounded = k.bounded }

  pub step-IsKept : (event : Event J) (p : Pool J) → IsKept p → Leads IsKept (step event p)
  unfolding step
  step-IsKept (submits job) p k = submit-IsKept job p k
  step-IsKept (turns i) p k =
      Leads-map (IsTurn i p) IsKept (turn i p) (λ p' t. IsTurn-IsKept i p p' k t) (turn-IsTurn i p)
  step-IsKept stops p k = stop-IsKept p k

  pub then_run-Leads :
      (P Q : Pool J → Type 0) (o : Option (Pool J)) (next : Pool J → Option (Pool J))
      → ((q : Pool J) → P q → Leads Q (next q))
      → Leads P o
      → Leads Q (then_run next o)
  then_run-Leads P Q none next f h = tt
  then_run-Leads P Q (some q) next f h = f q h

  -- What every step preserves holds behind every run.
  pub run-Leads :
      (P : Pool J → Type 0) (events : List (Event J)) (p : Pool J)
      → ((event : Event J) (q : Pool J) → P q → Leads P (step event q))
      → P p
      → Leads P (run events p)
  unfolding run
  run-Leads P [] p f h = h
  run-Leads P (event ∷ events) p f h =
      then_run-Leads P P (step event p) (run events) (λ q h. run-Leads P events q f h) (f event p h)

  total-idle : (w : J → ℕ) (n : ℕ) → total (held w) (idle_slots n) ≡ 0
  total-idle w zero = refl
  total-idle w (suc n) = omega (arith, total-idle w n)

  new_worker-IsKept : (pool_size queue_size : ℤ) → IsKept (new_worker pool_size queue_size)
  unfolding new_worker
  new_worker-IsKept pool_size queue_size = record {
    kept = λ w. omega (arith, total-idle w (size_or 4 pool_size));
    bounded = omega arith;
  }

  -- Behind any events at a new pool, every accepted job is waiting, being worked at or finished, just
  -- one of them and as often as it was accepted: whatever weights the jobs have, the weights add up.
  -- And no more jobs wait than the queue has room for.
  pub run-IsKept :
      (pool_size queue_size : ℤ) (events : List (Event J)) (p : Pool J)
      → run events (new_worker pool_size queue_size) ≡ some p
      → IsKept p
  run-IsKept pool_size queue_size events p reached =
      let kept : Leads IsKept (run events (new_worker pool_size queue_size)) =
        run-Leads IsKept events _ step-IsKept (new_worker-IsKept pool_size queue_size) in
      rw reached at kept
