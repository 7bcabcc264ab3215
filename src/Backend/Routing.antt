-- ===== src/Backend/Routing.antt =====
-- The routes of backend/internal/server/server.go and of the handlers that it mounts, with the check of
-- tokens before the private ones. A path is taken behind `/api/v1`.
pub mod Served
use ytshare.Base.{
  ℕ, String, Bool, true, false, ◌&&◌, Option, none, some, List, [], ◌∷◌, ◌++◌, if◌then◌else◌, ◌==◌,
}
use ytshare.Shared.Requests.{Method, get, post}
use ytshare.Backend.Accounts.{AuthLibrary, JwtConfig, authenticate}

pub record Route : Type 0 where
  pub method : Method
  pub path : String
  pub is_private : Bool

abbrev route : Method → String → Bool → Route
route method path is_private = record { method = method; path = path; is_private = is_private }

abbrev auth_routes : List Route
auth_routes =
    route post "/auth/signup" false
    ∷ route post "/auth/signin" false
    ∷ route post "/auth/refresh" false
    ∷ []

abbrev private_routes : List Route
private_routes =
    route post "/videos" true
    ∷ route get "/notifications/ws" true
    ∷ route get "/notifications/unread-count" true
    ∷ route post "/notifications/mark-seen" true
    ∷ route get "/notifications/since" true
    ∷ []

abbrev routes : List Route
routes = auth_routes ++ route get "/videos" false ∷ private_routes

abbrev same_method : Method → Method → Bool
same_method get get = true
same_method post post = true
same_method get post = false
same_method post get = false

abbrev find_route : Method → String → List Route → Option Route
find_route method path [] = none
find_route method path (r ∷ rest) =
    if same_method r.method method && r.path == path then some r else find_route method path rest

-- A handler is reached, for a user if the route is private.
pub data Reached : Type 0 where
  handled : (user : Option String) → Reached
  unauthorized not_found : Reached

abbrev admitted : Option String → Reached
admitted none = unauthorized
admitted (some user) = handled (some user)

module _ (lib : AuthLibrary) (cfg : JwtConfig) where
  abbrev reach_route : Option Route → ℕ → (header query : String) → Reached
  reach_route none now header query = not_found
  reach_route (some r) now header query =
      if r.is_private then admitted (authenticate lib cfg now header query) else handled none

  unfoldable pub reach : ℕ → Method → String → (header query : String) → Reached
  reach now method path header query = reach_route (find_route method path routes) now header query
