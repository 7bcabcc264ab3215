-- ===== src/Tests/Replay.antt =====
-- The replay with a concrete Redis.
use ytshare.Base.{
  ℕ, String, ◌≡◌, refl, ap, true, ◌⊎◌, Option, none, some, List, [], ◌∷◌, take, if◌then◌else◌, ◌==◌,
}
use ytshare.Notifications.Events.{handle_all, mount}
use ytshare.Backend.Hub.{new_hub, register}
use ytshare.Backend.Stream.{Entry}
use ytshare.Backend.Stream.Placed.{behind}
use ytshare.Backend.Replay.{RedisRange, replay, replay_backlog, open_socket, since_reply}
use ytshare.Backend.Replay.Resumed.{RangeLaws, asked_since, resume-nothing}
use ytshare.Tests.Samples.{two_events, empty_storage, no_queries}
use ytshare.Tests.Stream.{json}
use ytshare.Tests.Events.{me}

-- Two ids are enough here.
abbrev stream_id : String → Option ℕ
stream_id since = if since == "0" then some 0 else (if since == "1-0" then some 1 else none)

abbrev from : Option ℕ → ℕ → List Entry → Option (List Entry)
from none limit entries = none
from (some id) limit entries = some (take limit (behind id entries))

abbrev range : RedisRange
range = record { xrange = λ since limit entries. from (stream_id since) limit entries }

laws : RangeLaws range
laws = record {
  stream_id = stream_id;
  refuses = λ since limit entries e. ap (λ id. from id limit entries) e;
}

abbrev entries : List Entry
entries =
    record { id = 1; field_data = some "e1" }
    ∷ record { id = 2; field_data = none }
    ∷ record { id = 3; field_data = some "e3" }
    ∷ []

-- The entry without the field is left out.
resumes : (open_socket json range true "u1" "1-0" 9 entries new_hub).1 ≡ "e3" ∷ []
unfolding open_socket replay_backlog replay register
resumes = refl

resume-nothing_example :
    let c = handle_all me two_events (mount empty_storage [] no_queries) in
    ((open_socket json range true "u1" (asked_since c) 9 entries new_hub).1 ≡ [])
    × ((c.last_event_id ≡ "")
        ⊎ ((since_reply json range true c.last_event_id none entries).status ≡ 500))
unfolding laws
resume-nothing_example =
    resume-nothing json range laws me two_events empty_storage [] no_queries "u1" 9 none entries
      new_hub (refl, (refl, tt)) refl
