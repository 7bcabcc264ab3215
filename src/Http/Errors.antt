-- ===== src/Http/Errors.antt =====
-- When a failed request makes the client refresh its token.
use ytshare.Base.{
  ℕ, String, ◌≡◌, refl, ap, ◌↔◌, ◌≢◌, true, false, Option, none, some, Option-cases, Bool-cases,
  inl, inr, arith, truthy, truthy-of-ne, ne-of-truthy, ◌⊎◌,
}
use ytshare.Http.{
  AuthHooks, Config, HttpError, reject, await_refresh, is_401, on_error, refresh_token,
}

-- A refusal of the token that the client may answer by a refresh.
pub record IsRefreshable {S : Type 0} (hooks : Option (AuthHooks S)) (s : S) (error : HttpError)
    (original : Config) (token : String) : Type 0 where
  pub config : error.config ≡ some original
  pub unauthorized : error.status ≡ some 401
  pub first : original.retried ≡ false
  pub token_held : refresh_token hooks s ≡ some token
  pub not_blank : token ≢ ""

eq-401_of_is_401 : (status : Option ℕ) → is_401 status ≡ true → status ≡ some 401
eq-401_of_is_401 none h = cc
eq-401_of_is_401 (some n) h = ground arith

module _ {S : Type 0} (hooks : Option (AuthHooks S)) (s : S) (error : HttpError) (original : Config)
    (token : String) where
  awaits :
      IsRefreshable hooks s error original token
      → on_error hooks s error ≡ (s, await_refresh (record original { retried = true }) token)
  unfolding on_error
  awaits r =
      rw (r.config, r.unauthorized, r.first, r.token_held, truthy-of-ne token r.not_blank) refl

  refreshable :
      error.config ≡ some original
      → on_error hooks s error ≡ (s, await_refresh (record original { retried = true }) token)
      → IsRefreshable hooks s error original token
  unfolding on_error
  refreshable here e =
      let v : (on_error hooks s error).1
          ≡ await_refresh (record original { retried = true }) token =
        ap (λ p. p.1) e in
      record {
        config = here;
        unauthorized = eq-401_of_is_401 error.status (refused_401 v);
        first = ground arith;
        token_held = (held v).0;
        not_blank = ne-of-truthy token (held v).1;
      }
    where
      refused_401 :
          (on_error hooks s error).1 ≡ await_refresh (record original { retried = true }) token
          → is_401 error.status ≡ true
      refused_401 v = ground arith

      held :
          (on_error hooks s error).1 ≡ await_refresh (record original { retried = true }) token
          → (refresh_token hooks s ≡ some token) × (truthy token ≡ true)
      held v = elim (Option-cases (refresh_token hooks s)) [
        | inl nothing ↦ absurd (ground arith)
        | inr (t, e) ↦ elim (Bool-cases (truthy t)) [
          | inl named ↦ (ground arith, ground arith)
          | inr blank ↦ absurd (ground arith)
        ]
      ]

  -- A failed request whose configuration is known waits for a refresh with a token, the state of the
  -- application unchanged, exactly if it was refused with 401, was not sent again before, and that
  -- token is held and not empty.
  pub on_error-await_iff :
      error.config ≡ some original
      → (on_error hooks s error ≡ (s, await_refresh (record original { retried = true }) token))
        ↔ IsRefreshable hooks s error original token
  on_error-await_iff here = (refreshable here, awaits)

-- A failure that is not a 401, or that comes after a retry, is passed on, and neither signs out nor
-- changes the state otherwise.
pub on_error-passed_on :
    {S : Type 0} (hooks : Option (AuthHooks S)) (s : S) (error : HttpError) (original : Config)
    → (error.status ≢ some 401) ⊎ (original.retried ≡ true)
    → error.config ≡ some original
    → on_error hooks s error ≡ (s, reject)
unfolding on_error
on_error-passed_on hooks s error original h here = ground arith
