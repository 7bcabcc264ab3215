-- ===== src/Http/Refresh.antt =====
-- What a refresh means for the calls that wait for it: the outcome of each.
use ytshare.Base.{
  ◌+◌, String, ◌≡◌, refl, sym, ap, ◌∙◌, ◌⊎◌, inl, inr, none, some, List, [], ◌∷◌, ◌++◌, map,
  append-nil, append_assoc, truthy, Bool-cases,
}
use ytshare.Http.{AuthHooks, Config, bearer, on_request}
use ytshare.Http.Machine.{
  rejected_refresh, Settled, RefreshAnswer, tokens, refused, Machine, refresh_answered, request,
  settle, retry_all, fail_all, conclude, on_refresh_answer, step,
}

-- What the client relies on: after a refresh the application hands out the new token, or none; after
-- a failure it hands out no token.
pub record HooksLaws {S : Type 0} (h : AuthHooks S) : Type 0 where
  pub fresh_token :
      (access refresh expires : String) (s s' : S)
      → h.on_tokens_refreshed access refresh expires s ≡ some s'
      → (h.get_access_token s' ≡ none) ⊎ (h.get_access_token s' ≡ some access)
  pub failed_access : (s : S) → h.get_access_token (h.on_auth_failed s) ≡ none
  pub failed_refresh : (s : S) → h.get_refresh_token (h.on_auth_failed s) ≡ none

-- A request with the header that a retry sets.
abbrev pub authorized : String → Config → Config
authorized access config = record config { authorization = some (bearer access) }

abbrev pub given_up : Config → Settled
given_up config = record { call = config.call; outcome = rejected_refresh }

module _ {S : Type 0} (h : AuthHooks S) (laws : HooksLaws h) where
  -- The request interceptor leaves the header of a retry as it is.
  on_request-authorized :
      (access : String) (s : S) (config : Config)
      → (h.get_access_token s ≡ none) ⊎ (h.get_access_token s ≡ some access)
      → on_request (some h) s (authorized access config) ≡ authorized access config
  unfolding on_request
  on_request-authorized access s config (inl e) = rw e refl
  on_request-authorized access s config (inr e) = elim (Bool-cases (truthy access)) [
    | inl named ↦ rw (e, named) refl
    | inr blank ↦ rw (e, blank) refl
  ]

  retry_all-in_flight :
      (access : String) (configs : List Config) (m : Machine S)
      → (h.get_access_token m.app ≡ none) ⊎ (h.get_access_token m.app ≡ some access)
      → retry_all (some h) access configs m ≡ record m {
        in_flight = m.in_flight ++ map (authorized access) configs;
        sent = m.sent ++ map (λ c. c.call) configs;
      }
  unfolding retry_all request
  retry_all-in_flight access [] m e =
      λ i. record m { in_flight = sym (append-nil m.in_flight) i; sent = sym (append-nil m.sent) i }
  retry_all-in_flight access (config ∷ configs) m e =
      retry_all-in_flight access configs (request (some h) (authorized access config) m) e ∙ λ i.
      record m {
        in_flight =
            (ap (λ c. (m.in_flight ++ c ∷ []) ++ map (authorized access) configs)
                  (on_request-authorized access m.app config e)
                ∙ append_assoc m.in_flight (authorized access config ∷ [])
                    (map (authorized access) configs))
              i;
        sent = append_assoc m.sent (config.call ∷ []) (map (λ c. c.call) configs) i;
      }

  fail_all-settled :
      (configs : List Config) (m : Machine S)
      → (fail_all (some h) configs m).settled ≡ m.settled ++ map given_up configs
  unfolding fail_all settle
  fail_all-settled [] m = sym (append-nil m.settled)
  fail_all-settled (config ∷ configs) m =
      fail_all-settled configs
        (settle config.call rejected_refresh (record m { app = h.on_auth_failed m.app }))
      ∙ append_assoc m.settled (given_up config ∷ []) (map given_up configs)

  fail_all-in_flight :
      (configs : List Config) (m : Machine S)
      → (fail_all (some h) configs m).in_flight ≡ m.in_flight
  unfolding fail_all settle
  fail_all-in_flight [] m = refl
  fail_all-in_flight (config ∷ configs) m =
      fail_all-in_flight configs
        (settle config.call rejected_refresh (record m { app = h.on_auth_failed m.app }))

  fail_all-promise :
      (configs : List Config) (m : Machine S)
      → (fail_all (some h) configs m).refresh_promise ≡ m.refresh_promise
  unfolding fail_all settle
  fail_all-promise [] m = refl
  fail_all-promise (config ∷ configs) m =
      fail_all-promise configs
        (settle config.call rejected_refresh (record m { app = h.on_auth_failed m.app }))

  abbrev SignedOut : S → Type 0
  SignedOut s = (h.get_access_token s ≡ none) × (h.get_refresh_token s ≡ none)

  fail_all-SignedOut :
      (configs : List Config) (m : Machine S)
      → SignedOut m.app
      → SignedOut (fail_all (some h) configs m).app
  unfolding fail_all settle
  fail_all-SignedOut [] m out = out
  fail_all-SignedOut (config ∷ configs) m out =
      fail_all-SignedOut configs _ (laws.failed_access m.app, laws.failed_refresh m.app)

  signed_out :
      (config : Config) (configs : List Config) (m : Machine S)
      → SignedOut (fail_all (some h) (config ∷ configs) m).app
  unfolding fail_all settle
  signed_out config configs m =
      fail_all-SignedOut configs _ (laws.failed_access m.app, laws.failed_refresh m.app)

  conclude-tokens :
      (access refresh expires : String) (configs : List Config) (m : Machine S) (s : S)
      → h.on_tokens_refreshed access refresh expires m.app ≡ some s
      → conclude (some h) (tokens access refresh expires) configs m ≡ record m {
        app = s;
        in_flight = m.in_flight ++ map (authorized access) configs;
        sent = m.sent ++ map (λ c. c.call) configs;
      }
  unfolding conclude
  conclude-tokens access refresh expires configs m s stored =
      rw (stored, conclude)
        (retry_all-in_flight access configs (record m { app = s })
          (laws.fresh_token access refresh expires m.app s stored))

  conclude-failed :
      (answer : RefreshAnswer) (configs : List Config) (m : Machine S)
      → ((access refresh expires : String)
          → answer ≡ tokens access refresh expires
          → h.on_tokens_refreshed access refresh expires m.app ≡ none)
      → conclude (some h) answer configs m ≡ fail_all (some h) configs m
  unfolding conclude
  conclude-failed refused configs m fails = refl
  conclude-failed (tokens access refresh expires) configs m fails =
      rw (fails access refresh expires refl, conclude) refl

  abbrev answered_once : Machine S → Machine S
  answered_once m = record m { refresh_promise = none; refresh_answers = m.refresh_answers + 1 }

  -- With hooks that keep their laws, a refresh that gives tokens, and whose tokens are stored, sends
  -- every waiting request again, in order, with the new access token in its header; it settles no
  -- call, and the next refusal starts a refresh of its own.
  pub step-refresh_tokens :
      (access refresh expires : String) (configs : List Config) (m : Machine S) (s : S)
      → m.refresh_promise ≡ some configs
      → h.on_tokens_refreshed access refresh expires m.app ≡ some s
      → let m' = step (some h) (refresh_answered (tokens access refresh expires)) m in
        (m'.in_flight ≡ m.in_flight ++ map (authorized access) configs)
        × (m'.settled ≡ m.settled)
        × (m'.refresh_promise ≡ none)
        × (m'.app ≡ s)
  unfolding step on_refresh_answer
  step-refresh_tokens access refresh expires configs m s waits stored =
      simp (waits, on_refresh_answer)
        (rw (conclude-tokens access refresh expires configs (answered_once m) s stored)
          (refl, refl, refl, refl))

  -- With hooks that keep their laws, a refresh that fails, or whose tokens cannot be stored, rejects
  -- every waiting call, of which there is one at least, in order, sends none of them again, and
  -- signs the user out.
  pub step-refresh_failed :
      (config : Config) (configs : List Config) (m : Machine S) (answer : RefreshAnswer)
      → m.refresh_promise ≡ some (config ∷ configs)
      → ((access refresh expires : String)
          → answer ≡ tokens access refresh expires
          → h.on_tokens_refreshed access refresh expires m.app ≡ none)
      → let m' = step (some h) (refresh_answered answer) m in
        (m'.settled ≡ m.settled ++ map given_up (config ∷ configs))
        × (m'.in_flight ≡ m.in_flight)
        × (m'.refresh_promise ≡ none)
        × SignedOut m'.app
  unfolding step on_refresh_answer
  step-refresh_failed config configs m answer waits fails =
      let m₁ = answered_once m in
      simp (waits, on_refresh_answer)
        (rw (conclude-failed answer (config ∷ configs) m₁ fails) (
          fail_all-settled (config ∷ configs) m₁,
          fail_all-in_flight (config ∷ configs) m₁,
          fail_all-promise (config ∷ configs) m₁,
          signed_out config configs m₁,
        ))
