-- ===== src/Backend/Accounts.antt =====
-- backend/internal/modules/auth/service.go and jwt.go, over the table of users, with
-- backend/internal/middleware/auth.go. Passwords and tokens are the libraries' (bcrypt and jwt).
pub mod Tokens
pub mod Rows
pub mod Sessions
use Prim.Native.String
use Prim.Native.String.{[], ◌∷◌}
use Prim.Native.Char.{Char, code}
use ytshare.Base.{
  ℕ, zero, suc, ◌+◌, String, Bool, true, false, ◌||◌, Option, none, some, List, [], ◌∷◌, ◌++◌,
  if◌then◌else◌, nat_eq, ◌==◌,
}

pub data TokenKind : Type 0 where
  access refresh : TokenKind

abbrev pub same_kind : TokenKind → TokenKind → Bool
same_kind access access = true
same_kind refresh refresh = true
same_kind access refresh = false
same_kind refresh access = false

pub record Claims : Type 0 where
  pub user_id : String
  pub kind : TokenKind
  pub issued_at : ℕ
  pub expires_at : ℕ

pub record TokenPair : Type 0 where
  pub access_token : String
  pub refresh_token : String
  pub expires_at : ℕ

-- JWTConfig
pub record JwtConfig : Type 0 where
  pub access_secret : String
  pub refresh_secret : String
  pub access_ttl : ℕ
  pub refresh_ttl : ℕ

-- The libraries: `sign` may fail, `parse` checks the signature and the time, and `hash` takes a salt.
pub record AuthLibrary : Type 0 where
  pub trim_space : String → String
  pub to_lower : String → String
  pub hash : String → String → Option String
  pub compare : String → String → Bool
  pub sign : Claims → String → Option String
  pub parse : ℕ → String → String → Option Claims

-- A row of `users`.
pub record Account : Type 0 where
  pub id : String
  pub email : String
  pub name : String
  pub password_hash : String

pub record SignUpRequest : Type 0 where
  pub email : String
  pub name : String
  pub password : String

pub record Response : Type 0 where
  pub user_id : String
  pub user_email : String
  pub user_name : String
  pub access_token : String
  pub refresh_token : String
  pub expires_at : ℕ

pub data AuthError : Type 0 where
  email_taken invalid_credentials internal : AuthError

pub data AuthResult : Type 0 where
  denied : AuthError → AuthResult
  granted : Response → AuthResult

-- `Where(...).First`
abbrev pub find_by : (Account → Bool) → List Account → Option Account
find_by test [] = none
find_by test (u ∷ users) = if test u then some u else find_by test users

abbrev pub has_email : String → Account → Bool
has_email email u = u.email == email

abbrev pub has_id : String → Account → Bool
has_id id u = u.id == id

-- `strings.HasPrefix(s, prefix)` with the text behind the prefix.
abbrev pub behind_prefix : String → String → Option String
behind_prefix [] s = some s
behind_prefix (c ∷ prefix) [] = none
behind_prefix (c ∷ prefix) (d ∷ s) =
    if nat_eq (code c) (code d) then behind_prefix prefix s else none

-- The calls of `SignUp`: the salt, the new id, the time, and which calls of the table fail.
pub record SignUpCalls : Type 0 where
  pub salt : String
  pub id : String
  pub now : ℕ
  pub find_fails : Bool
  pub create_fails : Bool

module _ (lib : AuthLibrary) (cfg : JwtConfig) where
  abbrev pub claims_of : String → TokenKind → ℕ → ℕ → Claims
  claims_of user_id kind now ttl = record {
    user_id = user_id;
    kind = kind;
    issued_at = now;
    expires_at = now + ttl;
  }

  abbrev pair_of : Option String → Option String → ℕ → Option TokenPair
  pair_of (some a) (some r) exp =
      some (record { access_token = a; refresh_token = r; expires_at = exp })
  pair_of none r exp = none
  pair_of (some a) none exp = none

  -- `Issue`
  unfoldable pub issue : String → ℕ → Option TokenPair
  issue user_id now =
      pair_of (lib.sign (claims_of user_id access now cfg.access_ttl) cfg.access_secret)
        (lib.sign (claims_of user_id refresh now cfg.refresh_ttl) cfg.refresh_secret)
        (now + cfg.access_ttl)

  abbrev of_kind : TokenKind → Option Claims → Option Claims
  of_kind want none = none
  of_kind want (some claims) = if same_kind claims.kind want then some claims else none

  abbrev pub verify_access : ℕ → String → Option Claims
  verify_access now token = of_kind access (lib.parse now cfg.access_secret token)

  abbrev pub verify_refresh : ℕ → String → Option Claims
  verify_refresh now token = of_kind refresh (lib.parse now cfg.refresh_secret token)

  abbrev response_of : Account → Option TokenPair → AuthResult
  response_of u none = denied internal
  response_of u (some pair) = granted (record {
    user_id = u.id;
    user_email = u.email;
    user_name = u.name;
    access_token = pair.access_token;
    refresh_token = pair.refresh_token;
    expires_at = pair.expires_at;
  })

  -- `session`
  abbrev pub session : Account → ℕ → AuthResult
  session u now = response_of u (issue u.id now)

  abbrev pub normalize_email : String → String
  normalize_email s = lib.to_lower (lib.trim_space s)

  -- Two rows do not have one id.
  abbrev created : SignUpCalls → Account → List Account → List Account × AuthResult
  created calls u users = created_if (find_by (has_id u.id) users)
    where
      created_if : Option Account → List Account × AuthResult
      created_if (some other) = (users, denied internal)
      created_if none =
          if calls.create_fails
          then (users, denied internal)
          else (users ++ u ∷ [], session u calls.now)

  abbrev hashed :
      Option String → SignUpCalls → SignUpRequest → List Account → List Account × AuthResult
  hashed none calls req users = (users, denied internal)
  hashed (some password_hash) calls req users =
      created calls
        (record {
          id = calls.id;
          email = normalize_email req.email;
          name = lib.trim_space req.name;
          password_hash = password_hash;
        })
        users

  abbrev unless_taken :
      Option Account → SignUpCalls → SignUpRequest → List Account → List Account × AuthResult
  unless_taken (some other) calls req users = (users, denied email_taken)
  unless_taken none calls req users = hashed (lib.hash calls.salt req.password) calls req users

  -- `SignUp`
  unfoldable pub sign_up : SignUpCalls → SignUpRequest → List Account → List Account × AuthResult
  unfolding issue
  sign_up calls req users =
      if calls.find_fails
      then (users, denied internal)
      else unless_taken (find_by (has_email (normalize_email req.email)) users) calls req users

  abbrev checked_password : Option Account → String → ℕ → AuthResult
  checked_password none password now = denied invalid_credentials
  checked_password (some u) password now =
      if lib.compare u.password_hash password then session u now else denied invalid_credentials

  -- `SignIn`
  unfoldable pub sign_in : (find_fails : Bool) → ℕ → String → String → List Account → AuthResult
  unfolding issue
  sign_in find_fails now email password users =
      if find_fails
      then denied internal
      else checked_password (find_by (has_email (normalize_email email)) users) password now

  abbrev refreshed : Option Account → ℕ → AuthResult
  refreshed none now = denied invalid_credentials
  refreshed (some u) now = session u now

  abbrev refresh_for : (find_fails : Bool) → Option Claims → ℕ → List Account → AuthResult
  refresh_for find_fails none now users = denied invalid_credentials
  refresh_for find_fails (some claims) now users =
      if find_fails
      then denied invalid_credentials
      else refreshed (find_by (has_id claims.user_id) users) now

  -- `Refresh`
  unfoldable pub refresh_session : (find_fails : Bool) → ℕ → String → List Account → AuthResult
  unfolding issue
  refresh_session find_fails now token users =
      refresh_for find_fails (verify_refresh now token) now users

  abbrev pub strip_bearer : String → String
  strip_bearer raw = strip (behind_prefix "Bearer " raw)
    where
      strip : Option String → String
      strip (some rest) = lib.trim_space rest
      strip none = lib.trim_space raw

  abbrev authorized : Option Claims → Option String
  authorized none = none
  authorized (some claims) = some claims.user_id

  -- `Authenticator`: the user that a request is served for, if it is. The token in the query stands in
  -- for a missing header.
  unfoldable pub authenticate : ℕ → (header query : String) → Option String
  authenticate now header query =
      let token : String = strip_bearer (if header == "" then query else header) in
      if token == "" then none else authorized (verify_access now token)
