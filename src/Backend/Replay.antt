-- ===== src/Backend/Replay.antt =====
-- The replay of the stream: `Replay` of backend/internal/modules/notifications/stream.go, and
-- handler.go, which replays to a socket that resumes and to the fallback over HTTP.
pub mod Resumed
use ytshare.Base.{
  ℕ, String, Bool, true, false, not, ◌&&◌, ◌||◌, Option, none, some, get_or, List, [], ◌∷◌, ◌++◌,
  if◌then◌else◌, ltb, nat_eq, take, map, ◌==◌,
}
use ytshare.Backend.Hub.{Hub, register}
use ytshare.Backend.Hub.Clients.{nil_uuid}
use ytshare.Backend.Stream.{Event, Entry, Json}
use ytshare.Backend.Videos.Service.{ℤ, pos, negsuc}
use ytshare.Backend.Handlers.{Reply, http_error, plain, write_error}
use ytshare.Backend.Handlers

-- XRANGE over the entries of the stream, from behind the id of a text, and at most so many; where it
-- fails, there is none.
pub record RedisRange : Type 0 where
  pub xrange : String → ℕ → List Entry → Option (List Entry)

-- replayMaxLimit
abbrev pub replay_max_limit : ℕ
replay_max_limit = 500

abbrev limited : ℤ → ℕ
limited (pos n) = if nat_eq n 0 || ltb replay_max_limit n then replay_max_limit else n
limited (negsuc n) = replay_max_limit

-- wsReplayLimit
abbrev pub ws_replay_limit : ℕ
ws_replay_limit = 100

-- An event is for everybody, or for one user.
abbrev pub is_for : String → Event → Bool
is_for user evt = evt.recipient_id == nil_uuid || evt.recipient_id == user

abbrev pub addressed : String → List Event → List Event
addressed user [] = []
addressed user (evt ∷ events) =
    let rest = addressed user events in if is_for user evt then evt ∷ rest else rest

module _ (json : Json) where
  abbrev unmarshalled : Option String → Option Event
  unmarshalled none = none
  unmarshalled (some text) = json.unmarshal text

  abbrev appended : Option Event → List Event → List Event
  appended none events = events
  appended (some evt) events = evt ∷ events

  -- The loop of `Replay`: what cannot be read is left out.
  abbrev pub events_of : List Entry → List Event
  events_of [] = []
  events_of (entry ∷ entries) = appended (unmarshalled entry.field_data) (events_of entries)

  abbrev read_entries : Option (List Entry) → Option (List Event)
  read_entries none = none
  read_entries (some entries) = some (events_of entries)

module _ (json : Json) (range : RedisRange) where
  -- `Replay`
  unfoldable pub replay : String → ℤ → List Entry → Option (List Event)
  replay since limit entries =
      read_entries json (range.xrange (if since == "" then "0" else since) (limited limit) entries)

  -- The frames of a replay, of which `writes` get through until a write fails.
  abbrev frames_of : String → ℕ → Option (List Event) → List String
  frames_of user writes none = []
  frames_of user writes (some events) = take writes (map json.marshal (addressed user events))

  -- `replayBacklog`
  unfoldable pub replay_backlog : String → String → ℕ → List Entry → List String
  unfolding replay
  replay_backlog user since writes entries =
      frames_of user writes (replay since (pos ws_replay_limit) entries)

  -- `handle` behind the upgrade: the client is registered, and then sent what it has missed.
  unfoldable pub open_socket :
      (has_replayer : Bool) → String → String → ℕ → List Entry → Hub → Hub × List String
  unfolding register replay_backlog
  open_socket has_replayer user since writes entries h = (
    register user h,
    if not (since == "") && has_replayer then replay_backlog user since writes entries else [],
  )

  abbrev replied : Option (List Event) → Reply (List Event)
  replied none = write_error plain
  replied (some events) = Handlers.json 200 events

  -- A limit in the query that is a number, and positive.
  abbrev query_limit : Option ℤ → ℤ
  query_limit none = pos 100
  query_limit (some (pos n)) = if nat_eq n 0 then pos 100 else pos n
  query_limit (some (negsuc n)) = pos 100

  -- `since`
  unfoldable pub since_reply :
      (has_replayer : Bool) → String → Option ℤ → List Entry → Reply (List Event)
  unfolding replay
  since_reply has_replayer id limit entries =
      if has_replayer
      then replied (replay id (query_limit limit) entries)
      else write_error (http_error 501 "replay_unsupported")
