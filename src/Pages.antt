-- ===== src/Pages.antt =====
-- What the pages do when their forms are submitted: SignInPage.tsx, SignUpPage.tsx and
-- ShareVideoPage.tsx under frontend/src/modules, with the hooks useSignIn, useSignUp and
-- useShareVideo. A submission starts with the outcome of its request. The forms that sign in or up
-- are shown without a session, where the error interceptor of the HTTP client never waits for a
-- refresh: what it does to the store before their `catch` is part of the submission. That of sharing
-- starts behind it.
pub mod Outcomes
use ytshare.Base.{
  ℕ, String, Bool, true, false, Option, none, some, List, [], ◌∷◌, ◌++◌, if◌then◌else◌, nat_eq,
}
use ytshare.Shared.Query.{QueryClient, invalidate_queries}
use ytshare.Auth.Types.{AuthSession}
use ytshare.Auth.Session.{SessionCodec}
use ytshare.Auth.Store.{Auth, sign_in}
use ytshare.Auth.Bootstrap.{store_hooks}
use ytshare.Http.{HttpError, on_error}
use ytshare.Auth.Services.{ServerAuthResponse, to_session}
use ytshare.Videos.Types.{Video}
use ytshare.Videos.Keys.{videos_all}

-- `toast.success` or `toast.error`, with the key of its text, and the name that the text greets.
pub data Toast : Type 0 where
  success : (key : String) → (name : Option String) → Toast
  error : (key : String) → Toast

-- What a `catch` gets: an error of Axios with the status of its response, if there was one, or
-- another error.
pub data Caught : Type 0 where
  axios_error : (status : Option ℕ) → Caught
  other : Caught

abbrev pub has_status : ℕ → Caught → Bool
has_status code (axios_error (some status)) = nat_eq status code
has_status code _ = false

-- What a submission works on: the store, the query cache, the toasts so far, and the address.
pub record Browser : Type 0 where
  pub auth : Auth
  pub queries : QueryClient
  pub toasts : List Toast
  pub path : String

abbrev pub toast : Toast → Browser → Browser
toast t b = record b { toasts = b.toasts ++ t ∷ [] }

-- `toast`, and then `navigate({ to: '/' })`.
abbrev pub toast_and_leave : Toast → Browser → Browser
toast_and_leave t b = record (toast t b) { path = "/" }

-- The `catch` of the sign-in page.
abbrev pub sign_in_error : Caught → Toast
sign_in_error caught =
    if has_status 401 caught then error "toast.invalidCredentials" else error "toast.genericError"

abbrev pub sign_up_error : Caught → Toast
sign_up_error caught =
    if has_status 409 caught then error "toast.emailTaken" else error "toast.genericError"

abbrev pub share_error : Caught → Toast
share_error caught =
    if has_status 400 caught
    then error "toast.invalidUrl"
    else (if has_status 409 caught then error "toast.alreadyShared" else error "toast.genericError")

-- The result of a mutation.
pub data Result {ℓ} (A : Type ℓ) : Type ℓ where
  ok : A → Result A
  failed : Caught → Result A

-- Behind `setSession`, which throws (`none`) when the storage refuses.
abbrev entered : Toast → (Caught → Toast) → Option Auth → Browser → Browser
entered welcome on_error none b = toast (on_error other) b
entered welcome on_error (some auth) b = toast_and_leave welcome (record b { auth = auth })

module _ (codec : SessionCodec) where
  -- The `try` of both pages behind the request.
  abbrev pub enter : Toast → (Caught → Toast) → AuthSession → Browser → Browser
  enter welcome on_error session b = entered welcome on_error (sign_in codec session b.auth) b

  -- The error of a form's request, which has not been retried, for the interceptor.
  abbrev form_error : Caught → HttpError
  form_error (axios_error status) = record {
    config = some (record { call = 0; authorization = none; retried = false });
    status = status;
  }
  form_error other = record { config = none; status = none }

  -- The error interceptor with the hooks of the store, before the page's `catch`.
  abbrev pub intercepted : Caught → Browser → Browser
  intercepted caught b = record b {
    auth = (on_error (some (store_hooks codec)) b.auth (form_error caught)).0;
  }

  unfoldable pub submit_sign_in : Result ServerAuthResponse → Browser → Browser
  submit_sign_in (ok answer) b =
      enter (success "toast.signedIn" (some answer.user.name)) sign_in_error (to_session answer) b
  submit_sign_in (failed caught) b = toast (sign_in_error caught) (intercepted caught b)

  unfoldable pub submit_sign_up : Result ServerAuthResponse → Browser → Browser
  submit_sign_up (ok answer) b =
      enter (success "toast.signedUp" none) sign_up_error (to_session answer) b
  submit_sign_up (failed caught) b = toast (sign_up_error caught) (intercepted caught b)

-- `onSuccess` of useShareVideo.ts
abbrev pub on_shared : QueryClient → QueryClient
on_shared q = invalidate_queries videos_all q

unfoldable pub submit_share : Result Video → Browser → Browser
submit_share (ok video) b =
    toast_and_leave (success "toast.shared" none) (record b { queries = on_shared b.queries })
submit_share (failed caught) b = toast (share_error caught) b
