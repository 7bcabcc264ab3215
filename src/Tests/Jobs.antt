-- ===== src/Tests/Jobs.antt =====
-- The pool of workers at concrete jobs.
use ytshare.Base.{ℕ, zero, suc, ◌≤◌, ◌≡◌, refl, true, false, some, none, List, [], ◌∷◌, map}
use ytshare.Backend.Videos.Service.{pos}
use ytshare.Backend.Jobs.{
  Pool, gone, idle, busy, new_worker, submit, stop, turn, Event, submits, turns, stops, step, run,
}
use ytshare.Backend.Jobs.Kept.{IsKept, run-IsKept}
use ytshare.Backend.Jobs.Drained.{turns_left, IsDone, drain-bounded, stop-drains}

program : Unit {0}
unfolding run step submit stop turn new_worker
program = tt

abbrev two_jobs : List (Event ℕ)
two_jobs = submits 7 ∷ submits 8 ∷ turns 1 ∷ stops ∷ []

-- One job is being worked at, the other waits.
abbrev stopped : Pool ℕ
stopped = record {
  capacity = 2;
  queue = 8 ∷ [];
  closed = true;
  slots = idle ∷ busy 7 ∷ [];
  accepted = 7 ∷ 8 ∷ [];
  finished = [];
  panicked = false;
}

abbrev drained : Pool ℕ
drained = record stopped { queue = []; slots = gone ∷ gone ∷ []; finished = 8 ∷ 7 ∷ [] }

stops_behind : run two_jobs (new_worker (pos 2) (pos 2)) ≡ some stopped
unfolding program
stops_behind = refl

drains : run (map turns (0 ∷ 0 ∷ 1 ∷ 0 ∷ 1 ∷ [])) stopped ≡ some drained
unfolding program
drains = refl

-- A third job waits for room.
full : run {J = ℕ} (submits 7 ∷ submits 8 ∷ submits 9 ∷ []) (new_worker (pos 2) (pos 2)) ≡ none
unfolding program
full = refl

drain-bounded_example : 5 ≤ turns_left stopped
drain-bounded_example = drain-bounded stopped (0 ∷ 0 ∷ 1 ∷ 0 ∷ 1 ∷ []) drained drains

stuck : (i : ℕ) → turn i drained ≡ none
unfolding program
stuck zero = refl
stuck (suc zero) = refl
stuck (suc (suc i)) = refl

stop-drains_example : IsDone drained × (drained.accepted ≡ stopped.accepted)
stop-drains_example =
    stop-drains (pos 2) (pos 2) two_jobs stopped (0 ∷ 0 ∷ 1 ∷ 0 ∷ 1 ∷ []) drained stops_behind refl
      drains stuck

run-IsKept_example : IsKept stopped
run-IsKept_example = run-IsKept (pos 2) (pos 2) two_jobs stopped stops_behind
