-- ===== src/Http/Attempts.antt =====
-- Retrying ends: a call is sent at most twice.
use ytshare.Base.{
  ℕ, ◌+◌, ◌*◌, ◌≤◌, String, ◌≡◌, refl, ap, true, false, Option, none, some, List, [], ◌∷◌, ◌++◌,
  if◌then◌else◌, total, total-append, All, All-append, arith, Option-cases, inl, inr,
}
use ytshare.Http.{
  AuthHooks, Config, HttpError, Verdict, reject, await_refresh, bearer, on_request, on_error,
  tokens_refreshed, auth_failed,
}
use ytshare.Http.Machine.{
  Outcome, resolved, rejected, rejected_refresh, Answer, success, failure, RefreshAnswer, tokens,
  refused, Machine, Event, made, answered, refresh_answered, changed, pick, request, settle,
  join_refresh, follow, on_answer, retry_all, fail_all, conclude, on_refresh_answer, error_of, step,
  run, idle,
}
use ytshare.Http.Conservation.{one, of_config, waiting, total-pick, on_error-await}

-- A request that was not sent again may be sent once more.
abbrev pub unspent : ℕ → Config → ℕ
unspent n config = if config.retried then 0 else of_config n config

abbrev IsRetried : Config → Type 0
IsRetried config = config.retried ≡ true

unspent_retried : (n : ℕ) (config : Config) → IsRetried config → unspent n config ≡ 0
unspent_retried n config r = rw r refl

unspent_first :
    (n : ℕ) (config : Config) → config.retried ≡ false → unspent n config ≡ of_config n config
unspent_first n config f = rw f refl

module _ {S : Type 0} (n : ℕ) where
  -- What was sent of call `n`, and what may be sent yet, `k` of it in hand.
  record IsBounded (k : ℕ) (m : Machine S) : Type 0 where
    bound :
        total (one n) m.sent
          + total (unspent n) m.in_flight
          + total (of_config n) (waiting m.refresh_promise)
          + k
        ≤ 2 * total (one n) m.calls
    retried : All IsRetried (waiting m.refresh_promise)

  settle-IsBounded :
      (call : ℕ) (o : Outcome) (k : ℕ) (m : Machine S)
      → IsBounded k m
      → IsBounded k (settle call o m)
  unfolding settle
  settle-IsBounded call o k m h = record { bound = h.bound; retried = h.retried }

  join-IsBounded :
      (config : Config) (token : String) (promise : Option (List Config)) (k : ℕ) (m : Machine S)
      → m.refresh_promise ≡ promise
      → IsRetried config
      → IsBounded (k + of_config n config) m
      → IsBounded k (join_refresh config token promise m)
  unfolding join_refresh
  join-IsBounded config token none k m e r h = record {
    bound = omega (arith, h.bound, ap (λ p. total (of_config n) (waiting p)) e);
    retried = (r, tt);
  }
  join-IsBounded config token (some configs) k m e r h = record {
    bound = omega (
      arith,
      h.bound,
      ap (λ p. total (of_config n) (waiting p)) e,
      total-append (of_config n) configs (config ∷ []),
    );
    retried = All-append IsRetried configs (config ∷ []) (rw e at h.retried) (r, tt);
  }

  less_in_hand : (k : ℕ) {j : ℕ} (m : Machine S) → k ≤ j → IsBounded j m → IsBounded k m
  less_in_hand k m le h = record { bound = omega (arith, h.bound); retried = h.retried }

module _ {S : Type 0} (hooks : Option (AuthHooks S)) (n : ℕ) where
  unspent-on_request :
      (s : S) (config : Config) → unspent n (on_request hooks s config) ≡ unspent n config
  unfolding on_request
  unspent-on_request s config = ground arith

  request-IsBounded :
      (config : Config) (k : ℕ) (m : Machine S)
      → IsBounded n (k + of_config n config + unspent n config) m
      → IsBounded n k (request hooks config m)
  unfolding request
  request-IsBounded config k m h = record {
    bound = omega (
      arith,
      h.bound,
      total-append (one n) m.sent (config.call ∷ []),
      total-append (unspent n) m.in_flight (on_request hooks m.app config ∷ []),
      unspent-on_request m.app config,
    );
    retried = h.retried;
  }

  retry_all-IsBounded :
      (access : String) (configs : List Config) (k : ℕ) (m : Machine S)
      → All IsRetried configs
      → IsBounded n (k + total (of_config n) configs) m
      → IsBounded n k (retry_all hooks access configs m)
  unfolding retry_all
  retry_all-IsBounded access [] k m _ h = record {
    bound = omega (arith, h.bound);
    retried = h.retried;
  }
  retry_all-IsBounded access (config ∷ configs) k m (r, rs) h =
      let sending = record config { authorization = some (bearer access) } in
      retry_all-IsBounded access configs k (request hooks sending m) rs (
        request-IsBounded sending (k + total (of_config n) configs) m (record {
          bound = omega (arith, h.bound, unspent_retried n config r);
          retried = h.retried;
        }))

  fail_all-IsBounded :
      (configs : List Config) (k : ℕ) (m : Machine S)
      → IsBounded n k m
      → IsBounded n k (fail_all hooks configs m)
  unfolding fail_all
  fail_all-IsBounded [] k m h = h
  fail_all-IsBounded (config ∷ configs) k m h = fail_all-IsBounded configs k _ (
      settle-IsBounded n config.call rejected_refresh k (record m { app = auth_failed hooks m.app })
        (record { bound = h.bound; retried = h.retried }))

  conclude-IsBounded :
      (answer : RefreshAnswer) (configs : List Config) (m : Machine S)
      → All IsRetried configs
      → IsBounded n (total (of_config n) configs) m
      → IsBounded n 0 (conclude hooks answer configs m)
  unfolding conclude
  conclude-IsBounded refused configs m r h =
      fail_all-IsBounded configs 0 m (less_in_hand n 0 m (omega arith) h)
  conclude-IsBounded (tokens access refresh expires) configs m r h =
      elim (Option-cases (tokens_refreshed hooks access refresh expires m.app)) [
        | inl thrown ↦
            rw (thrown, conclude)
              (fail_all-IsBounded configs 0 m (less_in_hand n 0 m (omega arith) h))
        | inr (app, done) ↦
            rw (done, conclude)
              (retry_all-IsBounded access configs 0 (record m { app = app }) r
                (record { bound = omega (arith, h.bound); retried = h.retried }))
      ]

  on_refresh_answer-IsBounded :
      (answer : RefreshAnswer) (promise : Option (List Config)) (m : Machine S)
      → m.refresh_promise ≡ promise
      → IsBounded n 0 m
      → IsBounded n 0 (on_refresh_answer hooks answer promise m)
  unfolding on_refresh_answer
  on_refresh_answer-IsBounded answer none m e h = h
  on_refresh_answer-IsBounded answer (some configs) m e h =
      conclude-IsBounded answer configs
        (record m { refresh_promise = none; refresh_answers = m.refresh_answers + 1 })
        (rw e at h.retried)
        (record {
          bound = omega (arith, h.bound, ap (λ p. total (of_config n) (waiting p)) e);
          retried = tt;
        })

  follow-IsBounded :
      (original : Config) (error : HttpError) (verdict : Verdict) (m : Machine S)
      → ((config : Config) (token : String)
          → verdict ≡ await_refresh config token
          → (config ≡ record original { retried = true }) × (original.retried ≡ false))
      → IsBounded n (unspent n original) m
      → IsBounded n 0 (follow original.call error verdict m)
  unfolding follow
  follow-IsBounded original error reject m first h =
      settle-IsBounded n original.call (rejected error) 0 m (less_in_hand n 0 m (omega arith) h)
  follow-IsBounded original error (await_refresh config token) m first h =
      let (same, once) = first config token refl in
      join-IsBounded n config token m.refresh_promise 0 m refl (ap (λ c. c.retried) same) (
        less_in_hand n (0 + of_config n config) m
          (omega (arith, unspent_first n original once, ap (of_config n) same)) h)

  on_answer-IsBounded :
      (config : Config) (answer : Answer) (m : Machine S)
      → IsBounded n (unspent n config) m
      → IsBounded n 0 (on_answer hooks config answer m)
  unfolding on_answer
  on_answer-IsBounded config success m h =
      settle-IsBounded n config.call resolved 0 m (less_in_hand n 0 m (omega arith) h)
  on_answer-IsBounded config (failure status keep) m h =
      let error = error_of config status keep in
      follow-IsBounded config error (on_error hooks m.app error).1
        (record m { app = (on_error hooks m.app error).0 })
        (λ c t e.
          let (same, once, _) = on_error-await hooks m.app status keep config c t e in (same, once))
        (record { bound = h.bound; retried = h.retried })

  step-IsBounded :
      (event : Event S) (m : Machine S) → IsBounded n 0 m → IsBounded n 0 (step hooks event m)
  unfolding step
  step-IsBounded (made call) m h =
      request-IsBounded (record { call = call; authorization = none; retried = false }) 0
        (record m { calls = m.calls ++ call ∷ [] })
        (record {
          bound = omega (arith, h.bound, total-append (one n) m.calls (call ∷ []));
          retried = h.retried;
        })
  step-IsBounded (answered place answer) m h = elim (Option-cases (pick place m.in_flight)) [
    | inl nothing ↦ rw nothing h
    | inr ((config, rest), found) ↦ rw found (
        on_answer-IsBounded config answer (record m { in_flight = rest })
          (record {
            bound =
                omega (arith, h.bound, total-pick (unspent n) place m.in_flight config rest found);
            retried = h.retried;
          }))
  ]
  step-IsBounded (refresh_answered answer) m h =
      on_refresh_answer-IsBounded answer m.refresh_promise m refl h
  step-IsBounded (changed f) m h = record { bound = h.bound; retried = h.retried }

  run-IsBounded :
      (events : List (Event S)) (m : Machine S)
      → IsBounded n 0 m
      → IsBounded n 0 (run hooks events m)
  unfolding run
  run-IsBounded [] m h = h
  run-IsBounded (event ∷ events) m h =
      run-IsBounded events (step hooks event m) (step-IsBounded event m h)

  -- From an idle client, whatever the answers, a call that was made once is sent at most twice:
  -- refusals of the token cannot make the client send a request over and over.
  pub run-sent-le :
      (events : List (Event S)) (s : S)
      → let m = run hooks events (idle s) in total (one n) m.sent ≤ 2 * total (one n) m.calls
  run-sent-le events s =
      omega (
        arith,
        (run-IsBounded events (idle s) (record { bound = omega arith; retried = tt })).bound,
      )
