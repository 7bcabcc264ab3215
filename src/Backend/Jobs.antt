-- ===== src/Backend/Jobs.antt =====
-- backend/internal/jobs/worker.go: the pool of goroutines behind one bounded queue of jobs. What a
-- job does is its own; the log, and the time-out that it is given, are left out.
pub mod Kept
pub mod Manned
pub mod Drained
use ytshare.Base.{
  ℕ, zero, suc, Bool, true, false, ◌||◌, Option, none, some, List, [], ◌∷◌, ◌++◌, if◌then◌else◌,
  ltb, nat_eq, length, get_elem?, set_elem,
}
use ytshare.Backend.Videos.Service.{ℤ, pos, negsuc}

-- Where a goroutine of the pool stands in the loop of `run`.
pub data Slot (J : Type 0) : Type 0 where
  idle gone : Slot J
  busy : J → Slot J

-- The channel, its goroutines, and what came of the jobs: `accepted` are those that were sent to the
-- channel, and `finished` those that have returned, oldest first.
pub record Pool (J : Type 0) : Type 0 where
  pub capacity : ℕ
  pub queue : List J
  pub closed : Bool
  pub slots : List (Slot J)
  pub accepted : List J
  pub finished : List J
  pub panicked : Bool

-- A size that is not positive is replaced.
abbrev pub size_or : ℕ → ℤ → ℕ
size_or default (pos n) = if nat_eq n 0 then default else n
size_or default (negsuc n) = default

module _ {J : Type 0} where
  abbrev pub idle_slots : ℕ → List (Slot J)
  idle_slots zero = []
  idle_slots (suc n) = idle ∷ idle_slots n

  -- `NewWorker`
  unfoldable pub new_worker : ℤ → ℤ → Pool J
  new_worker pool_size queue_size = record {
    capacity = size_or 256 queue_size;
    queue = [];
    closed = false;
    slots = idle_slots (size_or 4 pool_size);
    accepted = [];
    finished = [];
    panicked = false;
  }

  -- `Submit`: a send to a closed channel panics, and to a full one it waits, which is no step.
  unfoldable pub submit : J → Pool J → Option (Pool J)
  submit job p =
      if p.closed
      then some (record p { panicked = true })
      else (if ltb (length p.queue) p.capacity
          then some (record p { queue = p.queue ++ job ∷ []; accepted = p.accepted ++ job ∷ [] })
          else none)

  -- The close in `Stop`, before it waits for the goroutines.
  unfoldable pub stop : Pool J → Option (Pool J)
  stop p = some (if p.closed then record p { panicked = true } else record p { closed = true })

  -- A receive from the channel: a job, or the end of a closed and empty one, or it waits.
  abbrev receive : ℕ → List J → Pool J → Option (Pool J)
  receive i (job ∷ queue) p =
      some (record p { queue = queue; slots = set_elem i (busy job) p.slots })
  receive i [] p = if p.closed then some (record p { slots = set_elem i gone p.slots }) else none

  abbrev turn_of : ℕ → Option (Slot J) → Pool J → Option (Pool J)
  turn_of i none p = none
  turn_of i (some gone) p = none
  turn_of i (some idle) p = receive i p.queue p
  turn_of i (some (busy job)) p =
      some (record p { slots = set_elem i idle p.slots; finished = p.finished ++ job ∷ [] })

  -- The next step of the goroutine `i` in `run`, where it has one.
  unfoldable pub turn : ℕ → Pool J → Option (Pool J)
  turn i p = turn_of i (get_elem? p.slots i) p

pub data Event (J : Type 0) : Type 0 where
  submits : (job : J) → Event J
  turns : (i : ℕ) → Event J
  stops : Event J

module _ {J : Type 0} where
  unfoldable pub step : Event J → Pool J → Option (Pool J)
  unfolding submit stop turn
  step (submits job) p = submit job p
  step (turns i) p = turn i p
  step stops p = stop p

  -- What an event leads to.
  abbrev pub then_run : (Pool J → Option (Pool J)) → Option (Pool J) → Option (Pool J)
  then_run next none = none
  then_run next (some p) = next p

  unfoldable pub run : List (Event J) → Pool J → Option (Pool J)
  unfolding step
  run [] p = some p
  run (event ∷ events) p = then_run (run events) (step event p)

module _ {J : Type 0} where
  -- What holds of the pool behind a step, where there is one.
  abbrev pub Leads : (Pool J → Type 0) → Option (Pool J) → Type 0
  Leads P none = Unit
  Leads P (some p) = P p
