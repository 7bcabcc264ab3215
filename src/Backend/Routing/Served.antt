-- ===== src/Backend/Routing/Served.antt =====
-- Which requests of the frontend reach their handler.
use ytshare.Base.{ℕ, ◌+◌, ◌<◌, String, ◌≡◌, refl, ◌∙◌, Bool, true, false, none, some, if◌then◌else◌}
use ytshare.Shared.Requests.{
  ServiceCall, get_unread_count, mark_notifications_seen, get_notifications_since, list_videos,
  share_video, sign_in, sign_up, request_of, endpoint_path,
}
use ytshare.Http.{bearer}
use ytshare.Backend.Accounts.{AuthLibrary, JwtConfig, access, claims_of, authenticate}
use ytshare.Backend.Accounts.Tokens.{AuthLibraryLaws, bearer_of, authenticate-access}
use ytshare.Backend.Routing.{Reached, handled, unauthorized, admitted, reach}

-- Which services are for a signed-in user.
abbrev pub needs_user : ServiceCall → Bool
needs_user (list_videos limit offset) = false
needs_user (sign_in payload) = false
needs_user (sign_up payload) = false
needs_user call = true

module _ (lib : AuthLibrary) (laws : AuthLibraryLaws lib) (cfg : JwtConfig) where
  authenticate-nobody : (now : ℕ) → authenticate lib cfg now "" "" ≡ none
  unfolding authenticate
  authenticate-nobody now = rw laws.blank refl

  -- The server sees the request of a service.
  abbrev pub reach_call : ℕ → ServiceCall → String → Reached
  reach_call now call header =
      reach lib cfg now (request_of call).0 (endpoint_path (request_of call).1) header ""

  reach_call_lem :
      (now : ℕ) (call : ServiceCall) (header : String)
      → reach_call now call header
        ≡ (if needs_user call then admitted (authenticate lib cfg now header "") else handled none)
  unfolding reach
  reach_call_lem now get_unread_count header = refl
  reach_call_lem now mark_notifications_seen header = refl
  reach_call_lem now (get_notifications_since since_id limit) header = refl
  reach_call_lem now (list_videos limit offset) header = refl
  reach_call_lem now (share_video payload) header = refl
  reach_call_lem now (sign_in payload) header = refl
  reach_call_lem now (sign_up payload) header = refl

  -- Every request of the frontend's services has a route of the server. With an access token that has
  -- not expired, it reaches its handler, for the user of the token where the handler needs one; without
  -- a token, those that need a user are refused, and the others reach their handler.
  pub reach_call-served :
      (call : ServiceCall) (user token : String) (issued now : ℕ)
      → lib.sign (claims_of lib cfg user access issued cfg.access_ttl) cfg.access_secret
        ≡ some token
      → now < issued + cfg.access_ttl
      → (reach_call now call (bearer token) ≡ handled (if needs_user call then some user else none))
        × (reach_call now call "" ≡ (if needs_user call then unauthorized else handled none))
  reach_call-served call user token issued now e live = (
    reach_call_lem now call (bearer_of token)
        ∙ (rw (authenticate-access lib laws cfg user token "" issued now e live)
            (by_need (needs_user call) user)),
    reach_call_lem now call "" ∙ rw (authenticate-nobody now) refl,
  )
    where
      by_need :
          (b : Bool) (user : String)
          → (if b then handled (some user) else handled none)
            ≡ handled (if b then some user else none)
      by_need true user = refl
      by_need false user = refl
