-- ===== src/Backend/Accounts/Sessions.antt =====
-- What a new account's session is good for.
use ytshare.Base.{
  ℕ, ◌+◌, String, ◌≡◌, refl, sym, ap, ◌∙◌, true, false, Bool-cases, ◌⊎◌, inl, inr, Option, none,
  some, Option-cases, List, [], ◌∷◌, ◌++◌, if◌then◌else◌, eq_refl, ltb, arith,
}
use mathlib.Core.Path.{subst}
use ytshare.Backend.Accounts.{
  access, refresh, JwtConfig, AuthLibrary, Account, SignUpRequest, Response, AuthError, email_taken,
  internal, invalid_credentials, AuthResult, denied, granted, find_by, has_email, has_id,
  SignUpCalls, claims_of, pair_of, issue, response_of, session, normalize_email, sign_up, sign_in,
  refresh_session, authenticate,
}
use ytshare.Backend.Accounts.Tokens.{
  AuthLibraryLaws, ExpiryLaw, bearer_of, access_token-authenticate, authenticate-refresh,
  verify_refresh-refresh, verify_refresh-expired,
}
use ytshare.Backend.Accounts.Rows.{found_later}

module _ (lib : AuthLibrary) (cfg : JwtConfig) where
  abbrev account_of : SignUpCalls → SignUpRequest → String → Account
  account_of calls req password_hash = record {
    id = calls.id;
    email = normalize_email lib cfg req.email;
    name = lib.trim_space req.name;
    password_hash = password_hash;
  }

  -- A sign-up is denied, or adds the account and gives it a session.
  abbrev IsDecided : SignUpCalls → SignUpRequest → List Account → List Account × AuthResult → Type 0
  IsDecided calls req users result =
      ((e : AuthError) × (result.1 ≡ denied e))
      ⊎ ((password_hash : String) × ((lib.hash calls.salt req.password ≡ some password_hash)
            × (find_by (has_id calls.id) users ≡ none)
            × (find_by (has_email (normalize_email lib cfg req.email)) users ≡ none)
            × (result ≡ (
              users ++ account_of calls req password_hash ∷ [],
              session lib cfg (account_of calls req password_hash) calls.now,
            ))))

  sign_up-IsDecided :
      (calls : SignUpCalls) (req : SignUpRequest) (users : List Account)
      → IsDecided calls req users (sign_up lib cfg calls req users)
  unfolding sign_up
  sign_up-IsDecided calls req users = elim (Bool-cases calls.find_fails) [
    | inl fails ↦ inl (internal, simp fails refl)
    | inr finds ↦
        elim (Option-cases (find_by (has_email (normalize_email lib cfg req.email)) users)) [
          | inr (other, taken) ↦ inl (email_taken, simp (finds, taken) refl)
          | inl free ↦ elim (Option-cases (lib.hash calls.salt req.password)) [
            | inl fails ↦ inl (internal, simp (finds, free, fails) refl)
            | inr (hash, hashes) ↦ elim (Option-cases (find_by (has_id calls.id) users)) [
              | inr (other, taken) ↦ inl (internal, simp (finds, free, hashes, taken) refl)
              | inl new ↦ elim (Bool-cases calls.create_fails) [
                | inl fails ↦ inl (internal, simp (finds, free, hashes, new, fails) refl)
                | inr creates ↦
                    inr (hash, (hashes, new, free, simp (finds, free, hashes, new, creates) refl))
              ]
            ]
          ]
        ]
  ]

  -- The tokens of a session that was given.
  abbrev IsSigned : Account → ℕ → Response → Type 0
  IsSigned u now given =
      (lib.sign (claims_of lib cfg u.id access now cfg.access_ttl) cfg.access_secret
        ≡ some given.access_token)
      × (lib.sign (claims_of lib cfg u.id refresh now cfg.refresh_ttl) cfg.refresh_secret
          ≡ some given.refresh_token)
      × (given.user_id ≡ u.id)
      × (given.expires_at ≡ now + cfg.access_ttl)

  given_of : Response → AuthResult → Response
  given_of default (denied e) = default
  given_of default (granted given) = given

  response_of-signed :
      (u : Account) (a r : Option String) (exp : ℕ) (given : Response)
      → response_of lib cfg u (pair_of lib cfg a r exp) ≡ granted given
      → (a ≡ some given.access_token)
        × (r ≡ some given.refresh_token)
        × (given.user_id ≡ u.id)
        × (given.expires_at ≡ exp)
  unfolding given_of
  response_of-signed u none r exp given e = cc e
  response_of-signed u (some a) none exp given e = cc e
  response_of-signed u (some a) (some r) exp given e =
      let same : Path Response _ given = ap (given_of given) e in
      (
        ap (λ g. some g.access_token) same,
        ap (λ g. some g.refresh_token) same,
        ap (λ g. g.user_id) (sym same),
        ap (λ g. g.expires_at) (sym same),
      )

  session-IsSigned :
      (u : Account) (now : ℕ) (given : Response)
      → session lib cfg u now ≡ granted given
      → IsSigned u now given
  unfolding issue
  session-IsSigned u now given e = response_of-signed u _ _ (now + cfg.access_ttl) given e

  -- What an account and its session are good for, with the accounts that come later.
  abbrev pub IsWelcome :
      SignUpCalls
      → SignUpRequest
      → Response
      → List Account
      → ℕ
      → String
      → SignUpCalls
      → SignUpRequest
      → Type 0
  IsWelcome calls req given users now email calls' req' =
      (authenticate lib cfg now (bearer_of given.access_token) ""
        ≡ (if ltb now given.expires_at then some given.user_id else none))
      × (authenticate lib cfg now (bearer_of given.refresh_token) "" ≡ none)
      × (sign_up lib cfg calls' req' users ≡ (users, denied email_taken))
      × (u : Account) × ((u.id ≡ given.user_id)
          × (refresh_session lib cfg false now given.refresh_token users ≡ (
              if ltb now (calls.now + cfg.refresh_ttl)
              then session lib cfg u now
              else denied invalid_credentials))
          × (sign_in lib cfg false now email req.password users ≡ session lib cfg u now))

module _ (lib : AuthLibrary) (laws : AuthLibraryLaws lib) (expiry : ExpiryLaw lib)
    (cfg : JwtConfig) where
  sign_in-account :
      (u : Account) (now : ℕ) (email password : String) (users : List Account)
      → find_by (has_email (normalize_email lib cfg email)) users ≡ some u
      → lib.compare u.password_hash password ≡ true
      → sign_in lib cfg false now email password users ≡ session lib cfg u now
  unfolding sign_in
  sign_in-account u now email password users found ok = rw found (rw ok refl)

  refresh_session-account :
      (u : Account) (issued now : ℕ) (token : String) (users : List Account)
      → lib.sign (claims_of lib cfg u.id refresh issued cfg.refresh_ttl) cfg.refresh_secret
        ≡ some token
      → find_by (has_id u.id) users ≡ some u
      → refresh_session lib cfg false now token users ≡ (
          if ltb now (issued + cfg.refresh_ttl)
          then session lib cfg u now
          else denied invalid_credentials)
  unfolding refresh_session
  refresh_session-account u issued now token users e found =
      elim (Bool-cases (ltb now (issued + cfg.refresh_ttl))) [
        | inl live ↦
            rw
              (
                live,
                verify_refresh-refresh lib laws cfg u.id token issued now e (ground (arith, live)),
                found,
              )
              refl
        | inr over ↦
            rw
              (
                over,
                verify_refresh-expired lib laws cfg expiry u.id token issued now e
                    (ground (arith, over)),
              )
              refl
      ]

  sign_up-taken :
      (calls : SignUpCalls) (req : SignUpRequest) (users : List Account) (u : Account)
      → calls.find_fails ≡ false
      → find_by (has_email (normalize_email lib cfg req.email)) users ≡ some u
      → sign_up lib cfg calls req users ≡ (users, denied email_taken)
  unfolding sign_up
  sign_up-taken calls req users u finds found = simp (finds, found) refl

  welcome :
      (u : Account) (calls calls' : SignUpCalls) (req req' : SignUpRequest) (users : List Account)
      (given : Response) (now : ℕ) (email : String)
      → IsSigned lib cfg u calls.now given
      → lib.compare u.password_hash req.password ≡ true
      → find_by (has_id u.id) users ≡ some u
      → find_by (has_email u.email) users ≡ some u
      → normalize_email lib cfg email ≡ u.email
      → normalize_email lib cfg req'.email ≡ u.email
      → calls'.find_fails ≡ false
      → IsWelcome lib cfg calls req given users now email calls' req'
  welcome u calls calls' req req' users given now email (a, r, id, exp) ok by_id by_email same same'
        finds =
      (
        access_token-authenticate lib laws cfg expiry u.id given.access_token calls.now now
              given.expires_at a exp
            ∙ ap (λ user. if ltb now given.expires_at then some user else none) (sym id),
        authenticate-refresh lib laws cfg u.id given.refresh_token "" cfg.refresh_secret calls.now
            now cfg.refresh_ttl r,
        sign_up-taken calls' req' users u finds
            (ap (λ address. find_by (has_email address) users) same' ∙ by_email),
        u,
        (
          sym id,
          refresh_session-account u calls.now now given.refresh_token users r by_id,
          sign_in-account u now email req.password users
              (ap (λ address. find_by (has_email address) users) same ∙ by_email) ok,
        ),
      )

  -- Once a sign-up was granted, whoever signs up later, and at any time: the access token lets
  -- requests through as the new user before the answer's expiry, and none from then on. The refresh
  -- token gives a new session of the user until its lifetime is over since the sign-up, and is refused
  -- from then on; it never lets a request through. Signing in with the password and the address,
  -- however it is written up to normalisation, gives a session of the user, and nobody else can sign
  -- up with the address. No look-up fails; a session is an internal error if it cannot be signed.
  pub sign_up-IsWelcome :
      (calls calls' : SignUpCalls) (req req' : SignUpRequest) (users later : List Account)
      (given : Response) (now : ℕ) (email : String)
      → (sign_up lib cfg calls req users).1 ≡ granted given
      → normalize_email lib cfg email ≡ normalize_email lib cfg req.email
      → normalize_email lib cfg req'.email ≡ normalize_email lib cfg req.email
      → calls'.find_fails ≡ false
      → IsWelcome lib cfg calls req given
          ((sign_up lib cfg calls req users).0 ++ later)
          now
          email
          calls'
          req'
  sign_up-IsWelcome calls calls' req req' users later given now email e same same' finds =
      elim (sign_up-IsDecided lib cfg calls req users) [
        | inl (error, refused) ↦ absurd (cc (e, refused))
        | inr (hash, (hashes, new, free, done)) ↦
            let u : Account = account_of lib cfg calls req hash in
            let signed : IsSigned lib cfg u calls.now given =
              session-IsSigned lib cfg u calls.now given (sym (ap (λ r. r.1) done) ∙ e) in
            subst
              (λ known. IsWelcome lib cfg calls req given (known ++ later) now email calls' req')
              (sym (ap (λ r. r.0) done))
              (welcome u calls calls' req req' ((users ++ u ∷ []) ++ later) given now email signed
                (laws.matches calls.salt req.password hash hashes)
                (found_later (has_id u.id) users later u new (eq_refl u.id))
                (found_later (has_email u.email) users later u free (eq_refl u.email)) same same'
                finds)
      ]
