-- ===== src/Tests/Samples.antt =====
-- Test data: users, sessions, storages, events and clients.
use ytshare.Base.{String, true, none, List, [], ◌∷◌}
use ytshare.Shared.Storage.{Storage}
use ytshare.Shared.Query.{QueryClient}
use ytshare.Auth.Types.{SessionUser, AuthSession}
use ytshare.Notifications.Types.{VideoSharedPayload, NotificationEvent}
use ytshare.Notifications.Dedup.{no_seen}
use ytshare.Notifications.Events.{Client}

abbrev pub alice : SessionUser
alice = record { id = "u1"; email = "a@b.c"; name = "Alice" }

abbrev pub alice_session : AuthSession
alice_session = record {
  user = alice;
  access_token = "a";
  refresh_token = "r";
  expires_at = "2099-01-01";
}

abbrev pub empty_storage : Storage
empty_storage = record { entries = λ _. none; writable = true }

abbrev pub no_queries : QueryClient
no_queries = record { unread = none; invalidated = [] }

abbrev pub share_of : String → VideoSharedPayload
share_of user = record {
  video_id = "v1";
  youtube_id = "dQw4w9WgXcQ";
  title = "A video";
  thumbnail_url = "t";
  shared_by_id = user;
  shared_by_name = "Somebody";
}

abbrev pub event : String → String → NotificationEvent
event id user = record {
  id = id;
  type = "video_shared";
  timestamp = "2026-01-01";
  recipient_id = none;
  payload = share_of user;
}

abbrev pub fresh_client : Client
fresh_client = record {
  seen = no_seen;
  last_event_id = "";
  storage = empty_storage;
  toasts = [];
  queries = no_queries;
}

-- Two shares, of Bob and of Alice herself.
abbrev pub two_events : List NotificationEvent
two_events = event "e1" "u2" ∷ event "e2" "u1" ∷ []
