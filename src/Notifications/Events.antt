-- ===== src/Notifications/Events.antt =====
-- `handleEvent` of useNotificationsSocket.tsx: what one event does to the refs, the storage, the
-- toasts and the query cache.
pub mod Ideal
pub mod Rule
pub mod Own
pub mod Stale
pub mod Resume
pub mod Replay
use ytshare.Base.{
  ℕ, ◌+◌, min, String, Bool, Option, none, some, get_or, List, [], ◌∷◌, ◌++◌, if◌then◌else◌, ◌==◌,
  truthy, not,
}
use ytshare.Shared.Storage.{Storage, get_item, set_item}
use ytshare.Shared.Query.{QueryKey, QueryClient, invalidate_queries, texts, text, params}
use ytshare.Videos.Keys.{videos_all}
use ytshare.Notifications.Types.{VideoSharedPayload, NotificationEvent}
use ytshare.Notifications.Dedup.{Seen, no_seen, remember_seen}

-- LAST_EVENT_ID_KEY
abbrev pub last_event_id_key : String
last_event_id_key = "notifications.lastEventId"

-- UNREAD_QUERY_KEY and UNREAD_MAX
abbrev pub unread_query_key : QueryKey
unread_query_key = texts ("notifications" ∷ "unread-count" ∷ [])

abbrev pub unread_max : ℕ
unread_max = 99

abbrev pub feed_filter : QueryKey
feed_filter = texts ("notifications" ∷ "feed" ∷ [])

-- `['notifications', 'feed', { limit }]`, the key of useNotificationsFeed.ts
abbrev pub feed_query_key : ℕ → QueryKey
feed_query_key limit = text "notifications" ∷ text "feed" ∷ params (("limit", limit) ∷ []) ∷ []

-- The refs of the hook, and what it writes to. `toasts` holds the payloads given to `toast.custom`,
-- oldest first.
pub record Client : Type 0 where
  pub seen : Seen
  pub last_event_id : String
  pub storage : Storage
  pub toasts : List VideoSharedPayload
  pub queries : QueryClient

-- The refs when the hook mounts: `localStorage.getItem(LAST_EVENT_ID_KEY) || ''`.
unfoldable pub mount : Storage → List VideoSharedPayload → QueryClient → Client
mount st toasts queries = record {
  seen = no_seen;
  last_event_id = get_or (get_item st last_event_id_key) "";
  storage = st;
  toasts = toasts;
  queries = queries;
}

-- The ref, then the storage, where a failing write is ignored.
unfoldable pub save_last_event_id : String → Client → Client
save_last_event_id id c = record c {
  last_event_id = id;
  storage = get_or (set_item c.storage last_event_id_key id) c.storage;
}

-- `setQueryData(UNREAD_QUERY_KEY, prev => ({ count: min((prev?.count ?? 0) + 1, UNREAD_MAX) }))`
unfoldable pub bump_unread : QueryClient → QueryClient
bump_unread q = record q { unread = some (min (get_or q.unread 0 + 1) unread_max) }

-- The toast, the optimistic count and the two invalidations.
unfoldable pub announce : VideoSharedPayload → Client → Client
unfolding bump_unread
announce payload c = record c {
  toasts = c.toasts ++ payload ∷ [];
  queries = invalidate_queries feed_filter (invalidate_queries videos_all (bump_unread c.queries));
}

-- `data.payload.sharedById === session?.user.id`
abbrev pub is_own : Option String → VideoSharedPayload → Bool
is_own none p = Bool.false
is_own (some me) p = p.shared_by_id == me

-- The part of `handleEvent` behind the duplicate test.
unfoldable pub handle_new : Option String → NotificationEvent → Client → Client
handle_new me evt c =
    let saved = save_last_event_id evt.id c in
    if not (evt.type == "video_shared")
    then saved
    else (if is_own me evt.payload then saved else announce evt.payload saved)

-- `handleEvent` for the session of the user `me`.
unfoldable pub handle_event : Option String → NotificationEvent → Client → Client
handle_event me evt c =
    if not (truthy evt.id)
    then c
    else (let (seen, fresh) = remember_seen c.seen evt.id in
        let c' = record c { seen = seen } in if fresh then handle_new me evt c' else c')

-- `for (const evt of events) handleEvent(evt)`, and any other sequence of events.
unfoldable pub handle_all : Option String → List NotificationEvent → Client → Client
handle_all me [] c = c
handle_all me (evt ∷ events) c = handle_all me events (handle_event me evt c)
