-- ===== src/Http.antt =====
-- frontend/src/shared/constants/http-client.ts: the two interceptors of the shared axios client.
-- The machine of Http/Machine.antt composes them with requests and refreshes in flight.
pub mod Machine
pub mod Conservation
pub mod Attempts
pub mod SingleFlight
pub mod Refresh
pub mod Errors
pub mod Kept
use Prim.Native.String
use ytshare.Base.{
  ℕ, String, Bool, true, false, ◌||◌, not, Option, none, some, if◌then◌else◌, truthy, nat_eq,
}

-- `AuthHooks`, over the application's state `S`. `on_tokens_refreshed` is `none` where it throws,
-- which leaves the state as it was.
pub record AuthHooks (S : Type 0) : Type 0 where
  pub get_access_token : S → Option String
  pub get_refresh_token : S → Option String
  pub on_tokens_refreshed : (access refresh expires : String) → S → Option S
  pub on_auth_failed : S → S

-- What the interceptors read and write of a request's configuration: which call it belongs to,
-- `headers.Authorization` and `_retried`.
pub record Config : Type 0 where
  pub call : ℕ
  pub authorization : Option String
  pub retried : Bool

-- What the error interceptor reads of an error: `error.config` and `error.response?.status`.
pub record HttpError : Type 0 where
  pub config : Option Config
  pub status : Option ℕ

abbrev pub bearer : String → String
bearer token = String.◌++◌ "Bearer " token

abbrev pub is_401 : Option ℕ → Bool
is_401 none = false
is_401 (some status) = nat_eq status 401

-- The configuration whose call is to wait for a refresh with the given refresh token, or the
-- rejection of the error at hand.
pub data Verdict : Type 0 where
  reject : Verdict
  await_refresh : Config → (refresh_token : String) → Verdict

abbrev with_token : Option String → Config → Config
with_token none config = config
with_token (some token) config =
    if truthy token then record config { authorization = some (bearer token) } else config

module _ {S : Type 0} where
  -- `hooks?.getAccessToken()` and its likes: nothing happens before `configureAuth`.
  abbrev pub access_token : Option (AuthHooks S) → S → Option String
  access_token none s = none
  access_token (some h) s = h.get_access_token s

  abbrev pub refresh_token : Option (AuthHooks S) → S → Option String
  refresh_token none s = none
  refresh_token (some h) s = h.get_refresh_token s

  abbrev pub tokens_refreshed :
      Option (AuthHooks S) → (access refresh expires : String) → S → Option S
  tokens_refreshed none access refresh expires s = some s
  tokens_refreshed (some h) access refresh expires s =
      h.on_tokens_refreshed access refresh expires s

  abbrev pub auth_failed : Option (AuthHooks S) → S → S
  auth_failed none s = s
  auth_failed (some h) s = h.on_auth_failed s

  -- The request interceptor.
  unfoldable pub on_request : Option (AuthHooks S) → S → Config → Config
  on_request hooks s config = with_token (access_token hooks s) config

  -- The error interceptor from its second `if` on.
  abbrev ask_refresh : Option (AuthHooks S) → S → Config → Option String → S × Verdict
  ask_refresh hooks s original none = (auth_failed hooks s, reject)
  ask_refresh hooks s original (some token) =
      if truthy token
      then (s, await_refresh (record original { retried = true }) token)
      else (auth_failed hooks s, reject)

  abbrev on_failed_request : Option (AuthHooks S) → S → Option ℕ → Option Config → S × Verdict
  on_failed_request hooks s status none = (s, reject)
  on_failed_request hooks s status (some original) =
      if not (is_401 status) || original.retried
      then (s, reject)
      else ask_refresh hooks s original (refresh_token hooks s)

  -- The error interceptor up to its `try`.
  unfoldable pub on_error : Option (AuthHooks S) → S → HttpError → S × Verdict
  on_error hooks s error = on_failed_request hooks s error.status error.config
