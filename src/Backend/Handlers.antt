-- ===== src/Backend/Handlers.antt =====
-- The bodies of the HTTP handlers that the pages' forms post to, and of the list: handler.go of auth
-- and of videos under backend/internal/modules, with backend/internal/httpx/response.go. What the
-- JSON decoder and the validator make of a body comes with the request.
pub mod Told
use ytshare.Base.{ℕ, String, Bool, Option, none, some, List, if◌then◌else◌}
use ytshare.Backend.Accounts.{
  AuthLibrary, JwtConfig, Account, SignUpRequest, SignUpCalls, Response, AuthError, email_taken,
  invalid_credentials, AuthResult, denied, granted, sign_up, sign_in, refresh_session,
}
use ytshare.Backend.Accounts
use ytshare.Backend.Videos.{GoText}
use ytshare.Backend.Videos.Service.{
  Service, ShareCalls, ShareRequest, VideoView, ShareError, already_shared, invalid_url,
  ShareResult, refused, shared, share, ListCalls, ListResponse, ℤ, list,
}
use ytshare.Backend.Videos.Service

-- An error that a handler writes: one with a status and a code, or any other.
pub data Failure : Type 0 where
  http_error : (status : ℕ) → (code : String) → Failure
  plain : Failure

pub data Body (A : Type 0) : Type 0 where
  error_body : (code : String) → Body A
  data_body : A → Body A

pub record Reply (A : Type 0) : Type 0 where
  pub status : ℕ
  pub body : Body A

-- A body as the decoder reads it, and whether the validator accepts it.
pub record Posted (A : Type 0) : Type 0 where
  pub decoded : Option A
  pub valid : Bool

module _ {A : Type 0} where
  -- `JSON`
  abbrev pub json : ℕ → A → Reply A
  json status data_sent = record { status = status; body = data_body data_sent }

  -- `WriteError`
  abbrev pub write_error : Failure → Reply A
  write_error (http_error status code) = record { status = status; body = error_body code }
  write_error plain = record { status = 500; body = error_body "internal_error" }

module _ {Req S A : Type 0} where
  -- `DecodeJSON`, the validator, and the rest of a handler.
  abbrev pub checked : Posted Req → (Req → S × Reply A) → S → S × Reply A
  checked posted serve s = decoded posted.decoded
    where
      decoded : Option Req → S × Reply A
      decoded none = (s, write_error (http_error 400 "invalid_body"))
      decoded (some req) =
          if posted.valid then serve req else (s, write_error (http_error 400 "validation_failed"))

-- `writeAuthError`
abbrev pub auth_failure : AuthError → Failure
auth_failure email_taken = http_error 409 "email_taken"
auth_failure invalid_credentials = http_error 401 "invalid_credentials"
auth_failure Accounts.internal = plain

abbrev pub auth_reply : ℕ → AuthResult → Reply Response
auth_reply status (denied e) = write_error (auth_failure e)
auth_reply status (granted response) = json status response

-- A body of `signIn`.
pub record SignInRequest : Type 0 where
  pub email : String
  pub password : String

module _ (lib : AuthLibrary) (cfg : JwtConfig) where
  -- `signUp`
  unfoldable pub post_sign_up :
      SignUpCalls → Posted SignUpRequest → List Account → List Account × Reply Response
  unfolding sign_up
  post_sign_up calls posted users =
      checked posted
        (λ req.
          let (users', result) = sign_up lib cfg calls req users in (users', auth_reply 201 result))
        users

  -- `signIn`, which leaves the table as it is.
  unfoldable pub post_sign_in :
      (find_fails : Bool) → ℕ → Posted SignInRequest → List Account → List Account × Reply Response
  unfolding sign_in
  post_sign_in find_fails now posted users =
      checked posted
        (λ req.
          (users, auth_reply 200 (sign_in lib cfg find_fails now req.email req.password users)))
        users

  -- `refresh`, likewise.
  unfoldable pub post_refresh :
      (find_fails : Bool) → ℕ → Posted String → List Account → List Account × Reply Response
  unfolding refresh_session
  post_refresh find_fails now posted users =
      checked posted
        (λ token. (users, auth_reply 200 (refresh_session lib cfg find_fails now token users)))
        users

abbrev pub share_failure : ShareError → Failure
share_failure invalid_url = http_error 400 "invalid_url"
share_failure already_shared = http_error 409 "already_shared"
share_failure Service.internal = plain

abbrev pub share_reply : ShareResult → Reply VideoView
share_reply (refused e) = write_error (share_failure e)
share_reply (shared view) = json 201 view

abbrev list_reply : Option ListResponse → Reply ListResponse
list_reply none = write_error plain
list_reply (some response) = json 200 response

-- `share`
unfoldable pub post_share :
    GoText → ShareCalls → Posted ShareRequest → Service.Service → Service.Service × Reply VideoView
unfolding share
post_share go calls posted s =
    checked posted (λ req. let (s', result) = share go calls req s in (s', share_reply result)) s

-- `list`, with what strconv.Atoi gives for the two numbers.
unfoldable pub get_list : ListCalls → ℤ → ℤ → Service.Service → Service.Service × Reply ListResponse
unfolding list
get_list calls limit offset s =
    let (s', response) = list calls limit offset s in (s', list_reply response)
