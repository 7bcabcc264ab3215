-- ===== src/Tests/Races.antt =====
-- Two requests to share one video at the same time.
use ytshare.Base.{◌≡◌, refl, false, List, [], ◌∷◌}
use ytshare.Backend.Videos.{extract_youtube_id}
use ytshare.Backend.Videos.Races.{
  Step, begins, creates, submits, new_site, ended, refused, begin, create, submit, step, run,
}
use ytshare.Backend.Videos.Races.Once.{IsOnce, run-IsOnce}
use ytshare.Tests.Videos.{go, req, calls}

program : Unit {0}
unfolding run step begin create submit extract_youtube_id
program = tt

-- Both look before either creates: the index refuses the second.
abbrev both : List Step
both = begins calls req ∷ begins calls req ∷ creates 1 false ∷ creates 0 false ∷ submits 1 ∷ []

one_stored : (run go both new_site).requests ≡ refused ∷ ended ∷ []
unfolding program
one_stored = refl

run-IsOnce_example : IsOnce (run go both new_site)
run-IsOnce_example = run-IsOnce go both
