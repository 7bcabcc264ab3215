-- ===== src/Backend/Hub.antt =====
-- backend/internal/modules/notifications/hub.go, and the channel and write loop of client.go. One
-- goroutine owns the registry: what it receives from its channels is one event after the other, and
-- the events of the connections come between.
pub mod Clients
pub mod Index
pub mod Sound
pub mod Loop
pub mod Dispatch
pub mod Inbox
pub mod Safe
pub mod Registered
pub mod Closed
pub mod Counted
pub mod Runs
use ytshare.Base.{
  ℕ, zero, suc, ◌+◌, ◌-◌, String, Bool, true, false, Option, none, some, get_or, List, [], ◌∷◌,
  ◌++◌, if◌then◌else◌, ltb, nat_eq, length, get_elem?, ◌==◌,
}
use ytshare.Backend.Hub.Clients.{
  nil_uuid, Client, Chan, fresh_chan, DispatchMsg, Registry, set_chan, close_send, add, drop_client,
  dispatch, close_all,
}

-- broadcastBuffer
abbrev pub broadcast_buffer : ℕ
broadcast_buffer = 256

-- The hub: the registry, whether `stop` is closed, and the queue of `dispatch`. `clients` are all
-- clients that were made, and `log` all messages that the owner has dispatched, oldest first.
pub record Hub : Type 0 where
  pub registry : Registry
  pub stopped : Bool
  pub queue : List DispatchMsg
  pub clients : List Client
  pub log : List DispatchMsg

-- The `select` of `publish`. Once `stop` is closed it may still queue the message, which nobody
-- reads then.
unfoldable pub publish : String → String → Hub → Hub
publish recipient payload h =
    if h.stopped
    then h
    else (if ltb (length h.queue) broadcast_buffer
        then record h {
          queue = h.queue ++ record { recipient = recipient; payload = payload } ∷ [];
        }
        else h)

abbrev pub broadcast : String → Hub → Hub
broadcast payload h = publish nil_uuid payload h

abbrev pub send_to_user : String → String → Hub → Hub
send_to_user user payload h =
    if user == nil_uuid then broadcast payload h else publish user payload h

-- `NewClient`, and `Register`, whose owner adds the client, or which closes its channel itself.
unfoldable pub register : String → Hub → Hub
unfolding add close_send
register user h =
    let c : Client = record { id = length h.clients; user_id = user } in
    let r : Registry = record h.registry {
      chans = set_chan h.registry.chans c.id (fresh_chan (length h.log));
    } in
    record h {
      clients = h.clients ++ c ∷ [];
      registry = if h.stopped then close_send c.id r else add c r;
    }

abbrev unregistered : Option Client → Hub → Hub
unregistered none h = h
unregistered (some c) h = if h.stopped then h else record h { registry = drop_client c h.registry }

-- `Unregister` of a client, as often as its loops like.
unfoldable pub unregister : ℕ → Hub → Hub
unfolding drop_client
unregister id h = unregistered (get_elem? h.clients id) h

abbrev dispatched : List DispatchMsg → Hub → Hub
dispatched [] h = h
dispatched (msg ∷ queue) h =
    if h.stopped
    then h
    else record h { registry = dispatch msg h.registry; queue = queue; log = h.log ++ msg ∷ [] }

-- The owner takes the next message.
unfoldable pub dispatch_next : Hub → Hub
unfolding dispatch
dispatch_next h = dispatched h.queue h

abbrev wrote : List String → Chan → Chan
wrote [] ch = ch
wrote (msg ∷ queue) ch = record ch { queue = queue; written = ch.written ++ msg ∷ [] }

-- A round of the write loop of a client.
unfoldable pub write_next : ℕ → Hub → Hub
write_next id h = record h {
  registry = record h.registry {
    chans = set_chan h.registry.chans id (wrote (h.registry.chans id).queue (h.registry.chans id));
  };
}

-- `Close`, whose second call does nothing.
unfoldable pub close : Hub → Hub
unfolding close_all
close h = if h.stopped then h else record h { stopped = true; registry = close_all h.registry }

pub data Event : Type 0 where
  registers : (user : String) → Event
  unregisters writes : (id : ℕ) → Event
  publishes : (recipient payload : String) → Event
  dispatches closes : Event

unfoldable pub step : Event → Hub → Hub
unfolding register unregister dispatch_next write_next publish close
step (registers user) h = register user h
step (unregisters id) h = unregister id h
step (writes id) h = write_next id h
step (publishes recipient payload) h = send_to_user recipient payload h
step dispatches h = dispatch_next h
step closes h = close h

unfoldable pub run : List Event → Hub → Hub
run [] h = h
run (event ∷ events) h = run events (step event h)

-- `NewHub`
abbrev pub new_hub : Hub
new_hub = record {
  registry = record {
    by_user = [];
    total = 0;
    count = 0;
    chans = λ _. fresh_chan 0;
    panicked = false;
  };
  stopped = false;
  queue = [];
  clients = [];
  log = [];
}
