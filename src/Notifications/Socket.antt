-- ===== src/Notifications/Socket.antt =====
-- The effect of useNotificationsSocket.tsx for one session: connecting, reconnecting after a delay,
-- recovering over HTTP, and the cleanup. What the browser calls back and when is a step relation.
pub mod Liveness
pub mod Delivery
pub mod LogLine
use ytshare.Base.{
  ℕ, String, ◌≡◌, Bool, true, false, not, ◌⊎◌, Option, none, some, List, [], ◌∷◌, ◌++◌,
  if◌then◌else◌, truthy,
}
use ytshare.Auth.Types.{AuthSession}
use ytshare.Http.Machine.{pick}
use ytshare.Notifications.Types.{NotificationEvent, NotificationsSinceResponse}
use ytshare.Notifications.Events.{Client, handle_event, handle_all}

-- The socket in `socketRef`; `opened` is the local variable of `connect`.
pub data Phase : Type 0 where
  connecting opened closed : Phase

-- What `buildUrl` puts into the query string.
pub record SocketUrl : Type 0 where
  pub access_token : String
  pub since : Option String

pub record Hook : Type 0 where
  pub session : AuthSession
  pub cancelled : Bool
  pub socket : Option Phase
  -- a reconnect is scheduled
  pub timer : Bool
  -- the `sinceId` of each HTTP recovery in flight
  pub recoveries : List String
  pub client : Client
  -- the URLs of the sockets opened so far, oldest first
  pub connections : List SocketUrl

abbrev pub since_of : String → Option String
since_of id = if truthy id then some id else none

unfoldable pub build_url : Hook → SocketUrl
build_url h = record {
  access_token = h.session.access_token;
  since = since_of h.client.last_event_id;
}

unfoldable pub connect : Hook → Hook
unfolding build_url
connect h =
    if h.cancelled
    then h
    else record h { socket = some connecting; connections = h.connections ++ build_url h ∷ [] }

-- The effect runs for a session: a fresh closure, whose first act is `connect`.
unfoldable pub start : AuthSession → Client → Hook
unfolding connect
start session client = connect (record {
  session = session;
  cancelled = false;
  socket = none;
  timer = false;
  recoveries = [];
  client = client;
  connections = [];
})

unfoldable pub on_open : Hook → Hook
on_open h = record h { socket = some opened }

-- `JSON.parse(event.data)`: `none` where it throws, and the message is dropped.
abbrev on_parsed : Option NotificationEvent → Hook → Hook
on_parsed none h = h
on_parsed (some evt) h = record h { client = handle_event (some h.session.user.id) evt h.client }

unfoldable pub on_message : (String → Option NotificationEvent) → String → Hook → Hook
on_message parse raw h = on_parsed (parse raw) h

-- `recoverViaHttp` up to its `await`.
unfoldable pub recover_via_http : Hook → Hook
recover_via_http h =
    if truthy h.client.last_event_id
    then record h { recoveries = h.recoveries ++ h.client.last_event_id ∷ [] }
    else h

-- Whether the socket never opened.
abbrev pub never_opened : Option Phase → Bool
never_opened (some connecting) = true
never_opened _ = false

abbrev schedule : Hook → Hook
schedule h = record h { socket = some closed; timer = true }

unfoldable pub on_close : Hook → Hook
unfolding recover_via_http
on_close h =
    if h.cancelled then h else schedule (if never_opened h.socket then recover_via_http h else h)

-- The timer of `setTimeout(connect, RECONNECT_DELAY_MS)` fires.
unfoldable pub on_timer : Hook → Hook
unfolding connect
on_timer h = connect (record h { timer = false })

abbrev pub recovered_events : Option NotificationsSinceResponse → Hook → Hook
recovered_events none h = h
recovered_events (some response) h = record h {
  client = handle_all (some h.session.user.id) response.events h.client;
}

abbrev answered : Option NotificationsSinceResponse → Option (String × List String) → Hook → Hook
answered response none h = h
answered response (some (_, rest)) h = recovered_events response (record h { recoveries = rest })

-- `recoverViaHttp` behind its `await`; a failed request (`none`) is only logged.
unfoldable pub on_recovered : ℕ → Option NotificationsSinceResponse → Hook → Hook
on_recovered place response h = answered response (pick place h.recoveries) h

-- What the effect returns.
unfoldable pub cleanup : Hook → Hook
cleanup h = record h { cancelled = true; timer = false; socket = none }

abbrev pub is_live : Option Phase → Bool
is_live (some connecting) = true
is_live (some opened) = true
is_live _ = false

-- What may happen next. A socket that `cleanup` closed still reports its end.
pub data Step (parse : String → Option NotificationEvent) (h : Hook) : Hook → Type 0 where
  opens : h.socket ≡ some connecting → Step parse h (on_open h)
  receives : (raw : String) → h.socket ≡ some opened → Step parse h (on_message parse raw h)
  closes : (is_live h.socket ≡ true) ⊎ (h.cancelled ≡ true) → Step parse h (on_close h)
  fires : h.timer ≡ true → Step parse h (on_timer h)
  recovers :
      (place : ℕ) (response : Option NotificationsSinceResponse)
      → Step parse h (on_recovered place response h)
  unmounts : Step parse h (cleanup h)

pub data Reach (parse : String → Option NotificationEvent) (h : Hook) : Hook → Type 0 where
  here : Reach parse h h
  next : {g k : Hook} → Reach parse h g → Step parse g k → Reach parse h k
