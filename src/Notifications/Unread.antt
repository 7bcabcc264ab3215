-- ===== src/Notifications/Unread.antt =====
-- useNotificationsUnreadCount.ts: the unread count, and its reset when the user has seen the list.
pub mod Reset
use ytshare.Base.{ℕ, Option, some, get_or, is_some, Bool}
use ytshare.Auth.Types.{AuthSession}
use ytshare.Shared.Query.{QueryClient, invalidate_queries}
use ytshare.Notifications.Events.{unread_query_key}

-- `data?.count ?? 0`
abbrev pub unread_count : QueryClient → ℕ
unread_count q = get_or q.unread 0

-- `enabled` of the query: whether there is a session.
abbrev pub count_enabled : Option AuthSession → Bool
count_enabled session = is_some session

-- `onSuccess` of the mutation that marks everything as seen.
unfoldable pub on_seen : QueryClient → QueryClient
on_seen q = invalidate_queries unread_query_key (record q { unread = some 0 })
