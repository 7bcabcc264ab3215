-- ===== src/Http/Machine.antt =====
-- The client at work: calls, responses and refreshes in any order. JavaScript runs each step to its
-- end, the continuations of the waiting calls included: they follow the refresh in one go.
use ytshare.Base.{
  ℕ, zero, suc, ◌+◌, String, Bool, true, false, Option, none, some, List, [], ◌∷◌, ◌++◌,
}
use ytshare.Http.{
  AuthHooks, Config, HttpError, Verdict, reject, await_refresh, bearer, on_request, on_error,
  tokens_refreshed, auth_failed,
}

-- How the promise of a call is settled. `rejected_refresh` is the error of the refresh.
pub data Outcome : Type 0 where
  resolved : Outcome
  rejected : HttpError → Outcome
  rejected_refresh : Outcome

pub record Settled : Type 0 where
  pub call : ℕ
  pub outcome : Outcome

-- What the transport answers to a request: a response, or an error with a status, if there was a
-- response, and with the request's configuration, if `keeps_config`.
pub data Answer : Type 0 where
  success : Answer
  failure : (status : Option ℕ) → (keeps_config : Bool) → Answer

pub data RefreshAnswer : Type 0 where
  tokens : (access refresh expires : String) → RefreshAnswer
  refused : RefreshAnswer

-- The application's state, `refreshPromise` with the calls that wait for it, and the requests on
-- the wire. The rest is a record of what happened: calls made, requests sent, promises settled,
-- refreshes posted and answered.
pub record Machine (S : Type 0) : Type 0 where
  pub app : S
  pub refresh_promise : Option (List Config)
  pub in_flight : List Config
  pub calls : List ℕ
  pub sent : List ℕ
  pub settled : List Settled
  pub refresh_posts : List String
  pub refresh_answers : ℕ

pub data Event (S : Type 0) : Type 0 where
  -- the application makes a call, which has no header and no `_retried`
  made : (call : ℕ) → Event S
  -- the transport answers the request that stands at the given place among those in flight
  answered : (place : ℕ) → Answer → Event S
  refresh_answered : RefreshAnswer → Event S
  -- the application changes its state: signing in or out, another tab
  changed : (S → S) → Event S

abbrev pub pick {ℓ} : {A : Type ℓ} → ℕ → List A → Option (A × List A)
pick n [] = none
pick zero (x ∷ xs) = some (x, xs)
pick (suc n) (x ∷ xs) = elim (pick n xs) [ none ↦ none | some (y, rest) ↦ some (y, x ∷ rest) ]

abbrev kept : Bool → Config → Option Config
kept true config = some config
kept false config = none

-- The error of a failed request.
abbrev pub error_of : Config → Option ℕ → Bool → HttpError
error_of config status keeps_config = record { config = kept keeps_config config; status = status }

module _ {S : Type 0} where
  unfoldable pub settle : ℕ → Outcome → Machine S → Machine S
  settle call outcome m = record m {
    settled = m.settled ++ record { call = call; outcome = outcome } ∷ [];
  }

  -- `await (refreshPromise ??= …)`: joins the refresh in flight, or posts one.
  unfoldable pub join_refresh : Config → String → Option (List Config) → Machine S → Machine S
  join_refresh config token (some waiting) m = record m {
    refresh_promise = some (waiting ++ config ∷ []);
  }
  join_refresh config token none m = record m {
    refresh_promise = some (config ∷ []);
    refresh_posts = m.refresh_posts ++ token ∷ [];
  }

  unfoldable pub follow : ℕ → HttpError → Verdict → Machine S → Machine S
  unfolding settle join_refresh
  follow call error reject m = settle call (rejected error) m
  follow call error (await_refresh config token) m = join_refresh config token m.refresh_promise m

module _ {S : Type 0} (hooks : Option (AuthHooks S)) where
  -- `httpClient.request(config)`
  unfoldable pub request : Config → Machine S → Machine S
  request config m = record m {
    in_flight = m.in_flight ++ on_request hooks m.app config ∷ [];
    sent = m.sent ++ config.call ∷ [];
  }

  -- The response interceptor, on either side.
  unfoldable pub on_answer : Config → Answer → Machine S → Machine S
  unfolding settle follow
  on_answer config success m = settle config.call resolved m
  on_answer config (failure status keeps_config) m =
      let error = error_of config status keeps_config in
      let (app, verdict) = on_error hooks m.app error in
      follow config.call error verdict (record m { app = app })

  -- The continuations of the waiting calls after a refresh, first in first out: each sets the
  -- header and sends its request again.
  unfoldable pub retry_all : String → List Config → Machine S → Machine S
  unfolding request
  retry_all access [] m = m
  retry_all access (config ∷ waiting) m =
      retry_all access waiting (request (record config { authorization = some (bearer access) }) m)

  -- The same after a failure: each reports it to the hooks and rejects.
  unfoldable pub fail_all : List Config → Machine S → Machine S
  unfolding settle
  fail_all [] m = m
  fail_all (config ∷ waiting) m =
      fail_all waiting
        (settle config.call rejected_refresh (record m { app = auth_failed hooks m.app }))

  -- The end of a refresh; `onTokensRefreshed` that throws is a failure too.
  unfoldable pub conclude : RefreshAnswer → List Config → Machine S → Machine S
  unfolding retry_all fail_all
  conclude refused waiting m = fail_all waiting m
  conclude (tokens access refresh expires) waiting m =
      elim (tokens_refreshed hooks access refresh expires m.app) [
        | none ↦ fail_all waiting m
        | some app ↦ retry_all access waiting (record m { app = app })
      ]

  unfoldable pub on_refresh_answer : RefreshAnswer → Option (List Config) → Machine S → Machine S
  unfolding conclude
  on_refresh_answer answer none m = m
  on_refresh_answer answer (some waiting) m =
      conclude answer waiting
        (record m { refresh_promise = none; refresh_answers = m.refresh_answers + 1 })

  abbrev answer_picked : Answer → Option (Config × List Config) → Machine S → Machine S
  answer_picked answer none m = m
  answer_picked answer (some (config, rest)) m =
      on_answer config answer (record m { in_flight = rest })

  unfoldable pub step : Event S → Machine S → Machine S
  step (made call) m =
      request (record { call = call; authorization = none; retried = false })
        (record m { calls = m.calls ++ call ∷ [] })
  step (answered place answer) m = answer_picked answer (pick place m.in_flight) m
  step (refresh_answered answer) m = on_refresh_answer answer m.refresh_promise m
  step (changed f) m = record m { app = f m.app }

  unfoldable pub run : List (Event S) → Machine S → Machine S
  run [] m = m
  run (event ∷ events) m = run events (step event m)

-- Before the first call.
abbrev pub idle : {S : Type 0} → S → Machine S
idle s = record {
  app = s;
  refresh_promise = none;
  in_flight = [];
  calls = [];
  sent = [];
  settled = [];
  refresh_posts = [];
  refresh_answers = 0;
}
