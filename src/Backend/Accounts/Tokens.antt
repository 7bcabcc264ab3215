-- ===== src/Backend/Accounts/Tokens.antt =====
-- What a token is good for.
use Prim.Native.String
use Prim.Native.String.{[], ◌∷◌}
use Prim.Native.Char.{code}
use text.Mathlib.TextLemmas.{nil-append, cons-append, append-eq-nil_iff}
use ytshare.Base.{
  ℕ, ◌+◌, ◌<◌, ◌≤◌, ltb, if◌then◌else◌, String, ◌≡◌, refl, ap, ◌∙◌, true, false, Bool-cases, inl,
  inr, none, some, Option-cases, nat_eq, ◌==◌, eq_iff, arith,
}
use ytshare.Backend.Accounts.{
  access, refresh, Claims, JwtConfig, AuthLibrary, behind_prefix, claims_of, verify_access,
  verify_refresh, authorized, authenticate,
}

-- What the code relies on of the libraries: a token is good for its claims until they expire, and has
-- no other claims under another secret; it is a text without spaces around it; a password matches its
-- hash.
pub record AuthLibraryLaws (lib : AuthLibrary) : Type 0 where
  pub signed :
      (claims : Claims) (secret token : String) (now : ℕ)
      → lib.sign claims secret ≡ some token
      → now < claims.expires_at
      → lib.parse now secret token ≡ some claims
  pub carried :
      (claims claims' : Claims) (secret secret' token : String) (now : ℕ)
      → lib.sign claims secret ≡ some token
      → lib.parse now secret' token ≡ some claims'
      → claims' ≡ claims
  pub trimmed :
      (claims : Claims) (secret token : String)
      → lib.sign claims secret ≡ some token
      → lib.trim_space token ≡ token
  pub blank : lib.trim_space "" ≡ ""
  pub not_empty :
      (claims : Claims) (secret token : String)
      → lib.sign claims secret ≡ some token
      → (token == "") ≡ false
  pub matches :
      (salt password hash : String)
      → lib.hash salt password ≡ some hash
      → lib.compare hash password ≡ true

-- And a token is refused, under any secret, from the time on at which its claims expire.
abbrev pub ExpiryLaw : AuthLibrary → Type 0
ExpiryLaw lib =
    (claims : Claims) (secret secret' token : String) (now : ℕ)
    → lib.sign claims secret ≡ some token
    → claims.expires_at ≤ now
    → lib.parse now secret' token ≡ none

abbrev pub bearer_of : String → String
bearer_of token = String.◌++◌ "Bearer " token

behind_prefix-append : (prefix s : String) → behind_prefix prefix (String.◌++◌ prefix s) ≡ some s
behind_prefix-append [] s = ap (behind_prefix []) (nil-append s)
behind_prefix-append (c ∷ prefix) s =
    let e : nat_eq (code c) (code c) ≡ true = ground arith in
    ap (behind_prefix (c ∷ prefix)) (cons-append c prefix s) ∙ rw e (behind_prefix-append prefix s)

bearer_of-not_empty : (token : String) → (bearer_of token == "") ≡ false
bearer_of-not_empty token = elim (Bool-cases (bearer_of token == "")) [
  | inl empty ↦ absurd (
      cc
        ((append-eq-nil_iff {p = "Bearer "} {q = token}).0
          ((eq_iff (bearer_of token) "").0 empty)).0)
  | inr other ↦ other
]

module _ (lib : AuthLibrary) (laws : AuthLibraryLaws lib) (cfg : JwtConfig) where
  -- A request with a token is served as what the token verifies to.
  authenticate-verify :
      (claims : Claims) (secret token query : String) (now : ℕ)
      → lib.sign claims secret ≡ some token
      → authenticate lib cfg now (bearer_of token) query
        ≡ authorized lib cfg (verify_access lib cfg now token)
  unfolding authenticate
  authenticate-verify claims secret token query now e =
      rw
        (
          bearer_of-not_empty token,
          behind_prefix-append "Bearer " token,
          laws.trimmed claims secret token e,
          laws.not_empty claims secret token e,
        )
        refl

  pub authenticate-access :
      (user_id token query : String) (issued now : ℕ)
      → lib.sign (claims_of lib cfg user_id access issued cfg.access_ttl) cfg.access_secret
        ≡ some token
      → now < issued + cfg.access_ttl
      → authenticate lib cfg now (bearer_of token) query ≡ some user_id
  authenticate-access user_id token query issued now e live =
      authenticate-verify _ _ token query now e ∙ rw (laws.signed _ _ token now e live) refl

  pub authenticate-refresh :
      (user_id token query secret : String) (issued now ttl : ℕ)
      → lib.sign (claims_of lib cfg user_id refresh issued ttl) secret ≡ some token
      → authenticate lib cfg now (bearer_of token) query ≡ none
  authenticate-refresh user_id token query secret issued now ttl e =
      authenticate-verify _ _ token query now e
      ∙ elim (Option-cases (lib.parse now cfg.access_secret token)) [
        | inl bad ↦ rw bad refl
        | inr (claims, good) ↦ rw (good, laws.carried _ claims _ _ token now e good) refl
      ]

  pub verify_refresh-refresh :
      (user_id token : String) (issued now : ℕ)
      → lib.sign (claims_of lib cfg user_id refresh issued cfg.refresh_ttl) cfg.refresh_secret
        ≡ some token
      → now < issued + cfg.refresh_ttl
      → verify_refresh lib cfg now token
        ≡ some (claims_of lib cfg user_id refresh issued cfg.refresh_ttl)
  verify_refresh-refresh user_id token issued now e live =
      rw (laws.signed _ _ token now e live) refl

  pub authenticate-expired :
      ExpiryLaw lib
      → (user_id token query : String) (issued now : ℕ)
      → lib.sign (claims_of lib cfg user_id access issued cfg.access_ttl) cfg.access_secret
        ≡ some token
      → issued + cfg.access_ttl ≤ now
      → authenticate lib cfg now (bearer_of token) query ≡ none
  authenticate-expired expiry user_id token query issued now e over =
      authenticate-verify _ _ token query now e ∙ rw (expiry _ _ _ token now e over) refl

  pub verify_refresh-expired :
      ExpiryLaw lib
      → (user_id token : String) (issued now : ℕ)
      → lib.sign (claims_of lib cfg user_id refresh issued cfg.refresh_ttl) cfg.refresh_secret
        ≡ some token
      → issued + cfg.refresh_ttl ≤ now
      → verify_refresh lib cfg now token ≡ none
  verify_refresh-expired expiry user_id token issued now e over =
      rw (expiry _ _ _ token now e over) refl

  pub access_token-authenticate :
      ExpiryLaw lib
      → (user_id token : String) (issued now exp : ℕ)
      → lib.sign (claims_of lib cfg user_id access issued cfg.access_ttl) cfg.access_secret
        ≡ some token
      → exp ≡ issued + cfg.access_ttl
      → authenticate lib cfg now (bearer_of token) "" ≡ (if ltb now exp then some user_id else none)
  access_token-authenticate expiry user_id token issued now exp e same =
      elim (Bool-cases (ltb now exp)) [
        | inl live ↦
            rw live (authenticate-access user_id token "" issued now e (ground (arith, live, same)))
        | inr over ↦
            rw over (
              authenticate-expired expiry user_id token "" issued now e
                (ground (arith, over, same)))
      ]
