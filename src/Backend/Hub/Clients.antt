-- ===== src/Backend/Hub/Clients.antt =====
-- The client registry of backend/internal/modules/notifications/hub.go, and the channels of client.go.
use ytshare.Base.{
  ℕ, ◌+◌, ◌-◌, String, Bool, true, false, Option, none, some, get_or, List, [], ◌∷◌, ◌++◌,
  if◌then◌else◌, ltb, nat_eq, length, ◌==◌,
}

-- sendBufferSize
abbrev pub send_buffer_size : ℕ
send_buffer_size = 32

-- uuid.Nil
abbrev pub nil_uuid : String
nil_uuid = "00000000-0000-0000-0000-000000000000"

-- A `*Client` is its number.
pub record Client : Type 0 where
  pub id : ℕ
  pub user_id : String

-- The channel `send` of a client, and what its write loop has written to the socket. `joined` is
-- how many messages were dispatched before the client was registered.
pub record Chan : Type 0 where
  pub queue : List String
  pub closed : Bool
  pub written : List String
  pub joined : ℕ

abbrev pub fresh_chan : ℕ → Chan
fresh_chan joined = record { queue = []; closed = false; written = []; joined = joined }

-- dispatchMsg
pub record DispatchMsg : Type 0 where
  pub recipient : String
  pub payload : String

-- The map `byUser`: its keys with their sets, in the order in which `range` gives them.
abbrev pub ByUser : Type 0
ByUser = List (String × List Client)

-- clientRegistry, and the channels of all clients. `panicked` is a send on a closed channel, or the
-- closing of one.
pub record Registry : Type 0 where
  pub by_user : ByUser
  pub total : ℕ
  pub count : ℕ
  pub chans : ℕ → Chan
  pub panicked : Bool

-- Lookups that miss give `none`.
abbrev pub lookup : String → ByUser → Option (List Client)
lookup user [] = none
lookup user ((key, set) ∷ rest) = if key == user then some set else lookup user rest

-- `m[user] = set`
abbrev pub put : String → List Client → ByUser → ByUser
put user set [] = (user, set) ∷ []
put user set ((key, old) ∷ rest) =
    if key == user then (key, set) ∷ rest else (key, old) ∷ put user set rest

-- `delete(m, user)`
abbrev pub delete : String → ByUser → ByUser
delete user [] = []
delete user ((key, set) ∷ rest) = if key == user then rest else (key, set) ∷ delete user rest

abbrev pub member : ℕ → List Client → Bool
member id [] = false
member id (c ∷ set) = if nat_eq c.id id then true else member id set

-- `delete(set, c)`
abbrev pub remove : ℕ → List Client → List Client
remove id [] = []
remove id (c ∷ set) = if nat_eq c.id id then set else c ∷ remove id set

abbrev pub set_chan : (ℕ → Chan) → ℕ → Chan → ℕ → Chan
set_chan chans id ch x = if nat_eq x id then ch else chans x

-- `close(c.send)`
unfoldable pub close_send : ℕ → Registry → Registry
close_send id r =
    if (r.chans id).closed
    then record r { panicked = true }
    else record r { chans = set_chan r.chans id (record (r.chans id) { closed = true }) }

-- `m[user]`, where a missing set is empty.
abbrev pub set_at : String → ByUser → List Client
set_at user by_user = get_or (lookup user by_user) []

abbrev pub added : Client → List Client → Registry → Registry
added c set r = if member c.id set then r else record r {
  by_user = put c.user_id (c ∷ set) r.by_user;
  total = r.total + 1;
  count = r.total + 1;
}

unfoldable pub add : Client → Registry → Registry
add c r = added c (set_at c.user_id r.by_user) r

-- `m[user] = set`, or `delete(m, user)` where the set is empty.
abbrev pub unlinked : String → List Client → ByUser → ByUser
unlinked user [] by_user = delete user by_user
unlinked user (c ∷ set) by_user = put user (c ∷ set) by_user

abbrev pub dropped : Client → List Client → Registry → Registry
dropped c set r =
    if member c.id set
    then (let r' = close_send c.id (record r {
      by_user = unlinked c.user_id (remove c.id set) r.by_user;
      total = r.total - 1;
    }) in
        record r' { count = r'.total })
    else r

abbrev pub drop_from : Client → Option (List Client) → Registry → Registry
drop_from c none r = r
drop_from c (some set) r = dropped c set r

unfoldable pub drop_client : Client → Registry → Registry
unfolding close_send
drop_client c r = drop_from c (lookup c.user_id r.by_user) r

-- The `select` of `deliver`: whether the payload was sent.
unfoldable pub deliver : Client → String → Registry → Registry × Bool
deliver c payload r =
    let ch = r.chans c.id in
    if ch.closed
    then (record r { panicked = true }, true)
    else (if ltb (length ch.queue) send_buffer_size
        then (
          record r {
            chans = set_chan r.chans c.id (record ch { queue = ch.queue ++ payload ∷ [] });
          },
          true,
        )
        else (r, false))

abbrev pub deliver_or_drop : Client → String → Registry → Registry
deliver_or_drop c payload r =
    let (r', sent) = deliver c payload r in if sent then r' else drop_client c r'

-- The loop over a set. A client is dropped only in its own round, so the set at the start will do.
unfoldable pub deliver_to : List Client → String → Registry → Registry
unfolding deliver drop_client
deliver_to [] payload r = r
deliver_to (c ∷ set) payload r = deliver_to set payload (deliver_or_drop c payload r)

unfoldable pub deliver_to_all : ByUser → String → Registry → Registry
deliver_to_all [] payload r = r
deliver_to_all ((_, set) ∷ rest) payload r = deliver_to_all rest payload (deliver_to set payload r)

unfoldable pub dispatch : DispatchMsg → Registry → Registry
dispatch msg r =
    if msg.recipient == nil_uuid
    then deliver_to_all r.by_user msg.payload r
    else deliver_to (set_at msg.recipient r.by_user) msg.payload r

unfoldable pub close_set : List Client → Registry → Registry
unfolding close_send
close_set [] r = r
close_set (c ∷ set) r = close_set set (close_send c.id r)

unfoldable pub close_sets : ByUser → Registry → Registry
unfolding close_set
close_sets [] r = r
close_sets ((_, set) ∷ rest) r = close_sets rest (close_set set r)

-- `closeAll`
unfoldable pub close_all : Registry → Registry
close_all r = record (close_sets r.by_user r) { count = 0 }
