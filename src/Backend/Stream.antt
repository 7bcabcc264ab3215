-- ===== src/Backend/Stream.antt =====
-- backend/internal/modules/notifications/stream.go: events written to a Redis stream, and the
-- subscriber of each replica, which reads the stream and hands what it reads to its hub. Redis and
-- the JSON of Go are parameters; the trimming of the stream, and the log, are left out.
pub mod Placed
pub mod Sound
pub mod Told
pub mod CaughtUp
use ytshare.Base.{
  ℕ, ◌≤◌, ◌<◌, String, ◌≡◌, Bool, Option, none, some, List, [], ◌∷◌, ◌++◌, if◌then◌else◌, length,
  drop, ltb, ◌==◌,
}
use ytshare.Backend.Hub
use ytshare.Backend.Hub.{publishes}
use ytshare.Backend.Hub.Clients.{nil_uuid}

-- An event of event.go; `payload` is the JSON of its payload.
pub record Event : Type 0 where
  pub id : String
  pub type : String
  pub timestamp : String
  pub recipient_id : String
  pub payload : String

-- An entry of the stream: its id, as a number, and the field "data", where it is a text.
pub record Entry : Type 0 where
  pub id : ℕ
  pub field_data : Option String

-- json.Marshal and json.Unmarshal of an event, and time.Now when the hub publishes an entry, by id.
pub record Json : Type 0 where
  pub marshal : Event → String
  pub unmarshal : String → Option Event
  pub clock : ℕ → String

-- The answer of XREAD from an id, or from "$", to the entries of the stream when the call began and
-- when it returns; with no entry, the call times out.
pub record Redis : Type 0 where
  pub xread : Option ℕ → List Entry → List Entry → List Entry

-- The zero time
abbrev zero_time : String
zero_time = "0001-01-01T00:00:00Z"

abbrev stamped : (now timestamp : String) → String
stamped now timestamp = if timestamp == zero_time then now else timestamp

-- What `Publish` fills in.
abbrev pub completed : String → String → Event → Event
completed new_id now evt = record evt {
  id = if evt.id == nil_uuid then new_id else evt.id;
  timestamp = stamped now evt.timestamp;
}

-- The loop's variable `lastID`, where none stands for "$", and where it stands in the loop: before
-- the call, in it since the stream held these entries, in the pause, or returned.
pub data Phase : Type 0 where
  ready backing_off returned : Phase
  blocked : (entries : List Entry) → Phase

-- A subscriber; `calls` are its calls of the hub, oldest first.
pub record Subscriber : Type 0 where
  pub last_id : Option ℕ
  pub phase : Phase
  pub calls : List Hub.Event

-- The stream and a subscriber of it.
pub record World : Type 0 where
  pub entries : List Entry
  pub subscriber : Subscriber

-- A subscriber that starts at a stream.
abbrev pub start : List Entry → World
start entries = record {
  entries = entries;
  subscriber = record { last_id = none; phase = ready; calls = [] };
}

-- Whether an id is greater than that of every entry, as XADD sees to.
abbrev pub is_next : ℕ → List Entry → Bool
is_next id [] = Bool.true
is_next id (entry ∷ entries) =
    let rest = is_next id entries in if ltb entry.id id then rest else Bool.false

pub data Happening : Type 0 where
  -- Somebody publishes.
  published : Option ℕ → (new_id now : String) → (evt : Event) → Happening
  -- The loop calls XREAD, at once or after the pause; the call answers, with nothing after five
  -- seconds; it fails; the context is cancelled.
  asks answers fails cancels : Happening

abbrev asked : List Entry → Phase → Phase
asked entries ready = blocked entries
asked entries backing_off = blocked entries
asked entries (blocked before) = blocked before
asked entries returned = returned

abbrev failed : Phase → Subscriber → Subscriber
failed (blocked before) s = record s { phase = backing_off }
failed ready s = s
failed backing_off s = s
failed returned s = s

module _ (json : Json) where
  abbrev pub entry_of : ℕ → String → String → Event → Entry
  entry_of id new_id now evt = record {
    id = id;
    field_data = some (json.marshal (completed new_id now evt));
  }

  -- `Publish`, with the id that XADD gives, or its failure.
  unfoldable pub publish : Option ℕ → String → String → Event → World → World
  publish none new_id now evt w = w
  publish (some id) new_id now evt w =
      if is_next id w.entries
      then record w { entries = w.entries ++ entry_of id new_id now evt ∷ [] }
      else w

  -- Broadcast or SendToUser, whose `publish` fills in a time that is missing.
  abbrev hub_call : String → Event → Hub.Event
  hub_call now evt =
      let text = json.marshal (record evt { timestamp = stamped now evt.timestamp }) in
      if evt.recipient_id == nil_uuid
      then publishes nil_uuid text
      else publishes evt.recipient_id text

  abbrev parsed : String → Option Event → List Hub.Event
  parsed now none = []
  parsed now (some evt) = hub_call now evt ∷ []

  abbrev raw : String → Option String → List Hub.Event
  raw now none = []
  raw now (some text) = parsed now (json.unmarshal text)

  -- `dispatch`: the calls of the hub for an entry.
  abbrev pub dispatch : Entry → List Hub.Event
  dispatch entry = raw (json.clock entry.id) entry.field_data

  -- The loop over the messages of an answer.
  abbrev pub receive : List Entry → Subscriber → Subscriber
  receive [] s = s
  receive (entry ∷ entries) s =
      receive entries (record s { last_id = some entry.id; calls = s.calls ++ dispatch entry })

module _ (json : Json) (redis : Redis) where
  abbrev answered : Phase → List Entry → Subscriber → Subscriber
  answered (blocked before) entries s =
      record (receive json (redis.xread s.last_id before entries) s) { phase = ready }
  answered ready entries s = s
  answered backing_off entries s = s
  answered returned entries s = s

  unfoldable pub step : Happening → World → World
  unfolding publish
  step (published id new_id now evt) w = publish json id new_id now evt w
  step asks w = record w {
    subscriber = record w.subscriber { phase = asked w.entries w.subscriber.phase };
  }
  step answers w = record w { subscriber = answered w.subscriber.phase w.entries w.subscriber }
  step fails w = record w { subscriber = failed w.subscriber.phase w.subscriber }
  step cancels w = record w { subscriber = record w.subscriber { phase = returned } }

  unfoldable pub run : List Happening → World → World
  unfolding step
  run [] w = w
  run (happening ∷ rest) w = run rest (step happening w)
