-- ===== src/Backend/Handlers/Told.antt =====
-- What the pages tell the user is what the services of the server have found.
use ytshare.Base.{ℕ, String, ◌≡◌, refl, Bool, true, ◌&&◌, some, List, if◌then◌else◌, leb, ltb}
use ytshare.Auth.Session.{SessionCodec}
use ytshare.Auth.Services.{ServerAuthResponse}
use ytshare.Videos.Types.{Video}
use ytshare.Http.{on_error}
use ytshare.Pages.{
  error, axios_error, other, Browser, toast, Result, ok, failed, submit_sign_in, submit_sign_up,
  submit_share, intercepted,
}
use ytshare.Backend.Accounts.{
  AuthLibrary, JwtConfig, Account, SignUpRequest, SignUpCalls, Response, AuthError, email_taken,
  invalid_credentials, AuthResult, denied, granted, sign_up, sign_in,
}
use ytshare.Backend.Accounts
use ytshare.Backend.Videos.{GoText}
use ytshare.Backend.Videos.Service.{
  ShareCalls, ShareRequest, VideoView, ShareError, already_shared, invalid_url, ShareResult,
  refused, shared, share,
}
use ytshare.Backend.Videos.Service
use ytshare.Backend.Handlers.{
  Body, error_body, data_body, Reply, Posted, auth_reply, SignInRequest, post_sign_up, post_sign_in,
  share_reply, post_share,
}

-- How Axios reads an answer: which statuses it accepts, and its data as the types of the frontend.
pub record Axios : Type 0 where
  pub accepts : ℕ → Bool
  pub session_of : Response → ServerAuthResponse
  pub video_of : VideoView → Video

-- It is documented to accept the statuses from 200 on and below 300.
abbrev pub AxiosLaws : Axios → Type 0
AxiosLaws axios = (status : ℕ) → axios.accepts status ≡ (leb 200 status && ltb status 300)

-- The text for what a service has found, by the form that asked.
abbrev pub share_key : ShareError → String
share_key invalid_url = "toast.invalidUrl"
share_key already_shared = "toast.alreadyShared"
share_key Service.internal = "toast.genericError"

abbrev pub sign_up_key : AuthError → String
sign_up_key email_taken = "toast.emailTaken"
sign_up_key invalid_credentials = "toast.genericError"
sign_up_key Accounts.internal = "toast.genericError"

abbrev pub sign_in_key : AuthError → String
sign_in_key email_taken = "toast.genericError"
sign_in_key invalid_credentials = "toast.invalidCredentials"
sign_in_key Accounts.internal = "toast.genericError"

-- The body that the decoder read, and that the validator accepted.
abbrev pub valid : {A : Type 0} → A → Posted A
valid req = record { decoded = some req; valid = true }

-- Only wrong credentials are answered with a 401, which the HTTP client handles before the page.
abbrev pub turned_away : SessionCodec → AuthError → Browser → Browser
turned_away codec invalid_credentials b = intercepted codec (axios_error (some 401)) b
turned_away codec email_taken b = b
turned_away codec Accounts.internal b = b

module _ (axios : Axios) where
  -- What a request results in: a status that is not accepted rejects with that status.
  abbrev pub received : {A B : Type 0} → (A → B) → Reply A → Result B
  received read reply =
      if axios.accepts reply.status
      then accepted read reply.body
      else failed (axios_error (some reply.status))
    where
      accepted : {A B : Type 0} → (A → B) → Body A → Result B
      accepted read (data_body a) = ok (read a)
      accepted read (error_body code) = failed other

  abbrev pub share_told : ShareResult → Browser → Browser
  share_told (refused e) b = toast (error (share_key e)) b
  share_told (shared view) b = submit_share (ok (axios.video_of view)) b

  abbrev pub sign_up_told : SessionCodec → AuthResult → Browser → Browser
  sign_up_told codec (denied e) b = toast (error (sign_up_key e)) (turned_away codec e b)
  sign_up_told codec (granted response) b = submit_sign_up codec (ok (axios.session_of response)) b

  abbrev pub sign_in_told : SessionCodec → AuthResult → Browser → Browser
  sign_in_told codec (denied e) b = toast (error (sign_in_key e)) (turned_away codec e b)
  sign_in_told codec (granted response) b = submit_sign_in codec (ok (axios.session_of response)) b

  module _ (laws : AxiosLaws axios) where
    share_reply-told :
        (result : ShareResult) (b : Browser)
        → submit_share (received axios.video_of (share_reply result)) b ≡ share_told result b
    unfolding submit_share
    share_reply-told (refused invalid_url) b = rw (laws 400) refl
    share_reply-told (refused already_shared) b = rw (laws 409) refl
    share_reply-told (refused Service.internal) b = rw (laws 500) refl
    share_reply-told (shared view) b = rw (laws 201) refl

    module _ (codec : SessionCodec) where
      sign_up_reply-told :
          (result : AuthResult) (b : Browser)
          → submit_sign_up codec (received axios.session_of (auth_reply 201 result)) b
            ≡ sign_up_told codec result b
      unfolding submit_sign_up on_error
      sign_up_reply-told (denied email_taken) b = rw (laws 409) refl
      sign_up_reply-told (denied invalid_credentials) b = rw (laws 401) refl
      sign_up_reply-told (denied Accounts.internal) b = rw (laws 500) refl
      sign_up_reply-told (granted response) b = rw (laws 201) refl

      sign_in_reply-told :
          (result : AuthResult) (b : Browser)
          → submit_sign_in codec (received axios.session_of (auth_reply 200 result)) b
            ≡ sign_in_told codec result b
      unfolding submit_sign_in on_error
      sign_in_reply-told (denied email_taken) b = rw (laws 409) refl
      sign_in_reply-told (denied invalid_credentials) b = rw (laws 401) refl
      sign_in_reply-told (denied Accounts.internal) b = rw (laws 500) refl
      sign_in_reply-told (granted response) b = rw (laws 200) refl

      -- A form that posts a valid body changes the tables of the server as its service does, and its
      -- page ends as for what the service has found: with the text for that very error, or as for the
      -- answer. That holds for sharing, for signing up and for signing in, where wrong credentials, and
      -- no other error, go through what the HTTP client does about a 401 first.
      pub posts-told :
          (go : GoText) (lib : AuthLibrary) (cfg : JwtConfig) (share_calls : ShareCalls)
          (share_req : ShareRequest) (s : Service.Service) (up_calls : SignUpCalls)
          (up_req : SignUpRequest) (find_fails : Bool) (now : ℕ) (in_req : SignInRequest)
          (users : List Account) (b : Browser)
          → let shared_now = post_share go share_calls (valid share_req) s in
            let signed_up = post_sign_up lib cfg up_calls (valid up_req) users in
            let signed_in = post_sign_in lib cfg find_fails now (valid in_req) users in
            (shared_now.0 ≡ (share go share_calls share_req s).0)
            × (submit_share (received axios.video_of shared_now.1) b
                ≡ share_told (share go share_calls share_req s).1 b)
            × (signed_up.0 ≡ (sign_up lib cfg up_calls up_req users).0)
            × (submit_sign_up codec (received axios.session_of signed_up.1) b
                ≡ sign_up_told codec (sign_up lib cfg up_calls up_req users).1 b)
            × (signed_in.0 ≡ users)
            × (submit_sign_in codec (received axios.session_of signed_in.1) b
                ≡ sign_in_told codec
                    (sign_in lib cfg find_fails now in_req.email in_req.password users)
                    b)
      unfolding post_share post_sign_up post_sign_in
      posts-told go lib cfg share_calls share_req s up_calls up_req find_fails now in_req users b =
          (
            refl,
            share_reply-told (share go share_calls share_req s).1 b,
            refl,
            sign_up_reply-told (sign_up lib cfg up_calls up_req users).1 b,
            refl,
            sign_in_reply-told (sign_in lib cfg find_fails now in_req.email in_req.password users)
                b,
          )
