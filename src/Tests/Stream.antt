-- ===== src/Tests/Stream.antt =====
-- The stream and its subscriber with a concrete Redis.
use ytshare.Base.{
  ℕ, String, ◌≡◌, refl, ◌∙◌, true, Option, none, some, is_some, List, [], ◌∷◌, ◌++◌, length, take,
  drop, take-append-drop, length-take_positive, arith,
}
use ytshare.Backend.Hub.{publishes}
use ytshare.Backend.Hub.Clients.{nil_uuid}
use ytshare.Backend.Stream.{
  Event, Entry, Json, Redis, start, publish, Happening, published, asks, answers, fails, step, run,
}
use ytshare.Backend.Stream.Placed.{behind, RedisLaws, dispatch_all}
use ytshare.Backend.Stream.CaughtUp.{rounds, is_running, run-catches_up}

-- A stream of which a call takes at most 100 entries.
abbrev xread : Option ℕ → List Entry → List Entry → List Entry
xread none before entries = take 100 (drop (length before) entries)
xread (some id) before entries = take 100 (behind id entries)

abbrev redis : Redis
redis = record { xread = xread }

drop-front : (front rest : List Entry) → drop (length front) (front ++ rest) ≡ rest
drop-front [] rest = refl
drop-front (x ∷ front) rest = drop-front front rest

laws : RedisLaws redis
laws = record {
  from_id =
      λ id before entries. (drop 100 (behind id entries), take-append-drop 100 (behind id entries));
  from_new = λ before new. (
    drop 100 (drop (length before) (before ++ new)),
    take-append-drop 100 (drop (length before) (before ++ new)) ∙ drop-front before new,
  );
  some_left =
      λ id before entries left. length-take_positive 100 (behind id entries) (omega arith) left;
}

-- An event is written as its id.
abbrev event : String → Event
event id = record {
  id = id;
  type = "video_shared";
  timestamp = "2026-01-01T00:00:00Z";
  recipient_id = nil_uuid;
  payload = "{}";
}

abbrev pub json : Json
json = record {
  marshal = λ evt. evt.id;
  unmarshal = λ text. some (event text);
  clock = λ id. "now";
}

abbrev old : List Entry
old = record { id = 1; field_data = some "e1" } ∷ []

abbrev publishes_as : ℕ → String → Happening
publishes_as id name = published (some id) "new" "now" (event name)

-- The second event comes while the first call waits; the fourth while the loop pauses.
abbrev past : List Happening
past = asks ∷ publishes_as 2 "e2" ∷ answers ∷ []

abbrev future : List Happening
future = asks ∷ publishes_as 3 "e3" ∷ fails ∷ publishes_as 4 "e4" ∷ []

program : Unit {0}
unfolding run step publish
program = tt

-- The event from before the start is not handed on, and those behind the first answer all are.
caught_up :
    (run json redis
      (rounds 4)
      (run json redis future (run json redis past (start old)))).subscriber.calls
    ≡ publishes nil_uuid "e2" ∷ publishes nil_uuid "e3" ∷ publishes nil_uuid "e4" ∷ []
unfolding program
caught_up = refl

-- What is published between two calls from "$" is lost.
lost :
    (run json redis (asks ∷ fails ∷ publishes_as 2 "e2" ∷ rounds 1) (start old)).subscriber.calls
    ≡ []
unfolding program
lost = refl

receives : is_some (run json redis past (start old)).subscriber.last_id ≡ true
unfolding program
receives = refl

runs : is_running (run json redis future (run json redis past (start old))).subscriber.phase ≡ true
unfolding program
runs = refl

run-catches_up_example :
    let w = run json redis past (start old) in
    let w' = run json redis future w in
    (before : List Entry) × (got : List Entry) × (rest : List Entry) × (w.entries
      ≡ (before ++ got) ++ rest)
    × (w.subscriber.calls ≡ dispatch_all json got)
    × ((run json redis (rounds (length w'.entries)) w').subscriber.calls
        ≡ dispatch_all json (drop (length before) w'.entries))
run-catches_up_example = run-catches_up json redis laws old past future (tt, tt) receives runs
