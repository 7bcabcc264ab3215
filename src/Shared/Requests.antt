-- ===== src/Shared/Requests.antt =====
-- frontend/src/shared/constants/endpoints.ts, and what the services of the modules ask the HTTP client
-- for. Each passes the body of the response on.
use ytshare.Base.{ℕ, String, Option, get_or}
use ytshare.Auth.Types.{SignInPayload, SignUpPayload}
use ytshare.Videos.Types.{ShareVideoPayload}

abbrev pub api_base_url : Option String → String
api_base_url configured = get_or configured "http://localhost:8080/api/v1"

abbrev pub ws_base_url : Option String → String
ws_base_url configured = get_or configured "ws://localhost:8080/api/v1"

-- API_ENDPOINTS
pub data Endpoint : Type 0 where
  auth_sign_up auth_sign_in auth_refresh : Endpoint
  videos : Endpoint
  notifications_ws notifications_unread_count : Endpoint
  notifications_mark_seen notifications_since : Endpoint

abbrev pub endpoint_path : Endpoint → String
endpoint_path auth_sign_up = "/auth/signup"
endpoint_path auth_sign_in = "/auth/signin"
endpoint_path auth_refresh = "/auth/refresh"
endpoint_path videos = "/videos"
endpoint_path notifications_ws = "/notifications/ws"
endpoint_path notifications_unread_count = "/notifications/unread-count"
endpoint_path notifications_mark_seen = "/notifications/mark-seen"
endpoint_path notifications_since = "/notifications/since"

-- A request of a service, with its parameters or its body.
pub data ServiceCall : Type 0 where
  get_unread_count mark_notifications_seen : ServiceCall
  get_notifications_since : (since_id : String) → (limit : Option ℕ) → ServiceCall
  list_videos : (limit offset : ℕ) → ServiceCall
  share_video : ShareVideoPayload → ServiceCall
  sign_in : SignInPayload → ServiceCall
  sign_up : SignUpPayload → ServiceCall

pub data Method : Type 0 where
  get post : Method

abbrev pub request_of : ServiceCall → Method × Endpoint
request_of get_unread_count = (get, notifications_unread_count)
request_of mark_notifications_seen = (post, notifications_mark_seen)
request_of (get_notifications_since since_id limit) = (get, notifications_since)
request_of (list_videos limit offset) = (get, videos)
request_of (share_video payload) = (post, videos)
request_of (sign_in payload) = (post, auth_sign_in)
request_of (sign_up payload) = (post, auth_sign_up)

-- The default of `limit`.
abbrev pub since_limit : Option ℕ → ℕ
since_limit limit = get_or limit 100
