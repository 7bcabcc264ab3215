-- ===== src/Http/Conservation.antt =====
-- No call is lost or settled twice: each is on the wire, waits for a refresh, or is settled.
use ytshare.Base.{
  ℕ, zero, suc, ◌+◌, String, ◌≡◌, refl, ap, Bool, true, false, Option, none, some, List, [], ◌∷◌,
  ◌++◌, nat_eq, if◌then◌else◌, total, total-append, arith, Option-cases, inl, inr,
}
use ytshare.Http.{
  AuthHooks, Config, HttpError, Verdict, reject, await_refresh, on_request, on_error,
  tokens_refreshed, refresh_token, auth_failed,
}
use ytshare.Http.Machine.{
  Outcome, resolved, rejected, rejected_refresh, Settled, Answer, success, failure, RefreshAnswer,
  tokens, refused, Machine, Event, made, answered, refresh_answered, changed, pick, request, settle,
  join_refresh, follow, on_answer, retry_all, fail_all, conclude, on_refresh_answer, error_of, step,
  run, idle,
}

abbrev pub one : ℕ → ℕ → ℕ
one n call = if nat_eq call n then 1 else 0

abbrev pub of_config : ℕ → Config → ℕ
of_config n config = one n config.call

abbrev pub of_settled : ℕ → Settled → ℕ
of_settled n s = one n s.call

abbrev pub waiting : Option (List Config) → List Config
waiting none = []
waiting (some configs) = configs

module _ {S : Type 0} (n : ℕ) where
  -- How often call `n` stands in each of the three places.
  abbrev pub accounted : Machine S → ℕ
  accounted m =
      total (of_config n) m.in_flight
      + total (of_config n) (waiting m.refresh_promise)
      + total (of_settled n) m.settled

  -- Of the times that call `n` was made, `k` are in hand, and the others in their places.
  abbrev pub IsBalanced : ℕ → Machine S → Type 0
  IsBalanced k m = total (one n) m.calls ≡ accounted m + k

pub total-pick {ℓ} :
    {A : Type ℓ} (w : A → ℕ) (k : ℕ) (xs : List A) (x : A) (rest : List A)
    → pick k xs ≡ some (x, rest)
    → total w xs ≡ w x + total w rest
total-pick w k [] x rest e = cc
total-pick w zero (y ∷ xs) x rest e = ground arith
total-pick w (suc k) (y ∷ xs) x rest e = elim (Option-cases (pick k xs)) [
  | inl stuck ↦ ground arith
  | inr ((z, more), found) ↦ ground (arith, total-pick w k xs z more found)
]

module _ {S : Type 0} (n : ℕ) where
  settle-IsBalanced :
      (call : ℕ) (o : Outcome) (k : ℕ) (m : Machine S)
      → IsBalanced n (k + one n call) m
      → IsBalanced n k (settle call o m)
  unfolding settle
  settle-IsBalanced call o k m h =
      omega
        (arith, total-append (of_settled n) m.settled (record { call = call; outcome = o } ∷ []))

  join-IsBalanced :
      (config : Config) (token : String) (k : ℕ) (m : Machine S)
      → IsBalanced n (k + of_config n config) m
      → IsBalanced n k (join_refresh config token m.refresh_promise m)
  unfolding join_refresh
  join-IsBalanced config token k m h = elim (Option-cases m.refresh_promise) [
    | inl e ↦ simp (e, join_refresh) (omega (arith, ap (λ p. total (of_config n) (waiting p)) e))
    | inr (configs, e) ↦
        simp (e, join_refresh)
          (omega (
            arith,
            ap (λ p. total (of_config n) (waiting p)) e,
            total-append (of_config n) configs (config ∷ []),
          ))
  ]

  follow-IsBalanced :
      (call : ℕ) (error : HttpError) (verdict : Verdict) (k : ℕ) (m : Machine S)
      → ((config : Config) (token : String)
          → verdict ≡ await_refresh config token
          → config.call ≡ call)
      → IsBalanced n (k + one n call) m
      → IsBalanced n k (follow call error verdict m)
  unfolding follow
  follow-IsBalanced call error reject k m same h = settle-IsBalanced call (rejected error) k m h
  follow-IsBalanced call error (await_refresh config token) k m same h =
      join-IsBalanced config token k m (omega (arith, ap (one n) (same config token refl), h))

module _ {S : Type 0} (hooks : Option (AuthHooks S)) (n : ℕ) where
  call-on_request : (s : S) (config : Config) → (on_request hooks s config).call ≡ config.call
  unfolding on_request
  call-on_request s config = ground arith

  request-IsBalanced :
      (config : Config) (k : ℕ) (m : Machine S)
      → IsBalanced n (k + of_config n config) m
      → IsBalanced n k (request hooks config m)
  unfolding request
  request-IsBalanced config k m h = omega (
    arith,
    total-append (of_config n) m.in_flight (on_request hooks m.app config ∷ []),
    ap (one n) (call-on_request m.app config),
  )

  retry_all-IsBalanced :
      (access : String) (configs : List Config) (k : ℕ) (m : Machine S)
      → IsBalanced n (k + total (of_config n) configs) m
      → IsBalanced n k (retry_all hooks access configs m)
  unfolding retry_all
  retry_all-IsBalanced access [] k m h = omega arith
  retry_all-IsBalanced access (config ∷ configs) k m h =
      retry_all-IsBalanced access configs k _ (request-IsBalanced _ _ m (omega arith))

  fail_all-IsBalanced :
      (configs : List Config) (k : ℕ) (m : Machine S)
      → IsBalanced n (k + total (of_config n) configs) m
      → IsBalanced n k (fail_all hooks configs m)
  unfolding fail_all
  fail_all-IsBalanced [] k m h = omega arith
  fail_all-IsBalanced (config ∷ configs) k m h = fail_all-IsBalanced configs k _ (
      settle-IsBalanced n config.call rejected_refresh (k + total (of_config n) configs)
        (record m { app = auth_failed hooks m.app }) (omega arith))

  conclude-IsBalanced :
      (answer : RefreshAnswer) (configs : List Config) (k : ℕ) (m : Machine S)
      → IsBalanced n (k + total (of_config n) configs) m
      → IsBalanced n k (conclude hooks answer configs m)
  unfolding conclude
  conclude-IsBalanced refused configs k m h = fail_all-IsBalanced configs k m h
  conclude-IsBalanced (tokens access refresh expires) configs k m h =
      elim (Option-cases (tokens_refreshed hooks access refresh expires m.app)) [
        | inl thrown ↦ rw (thrown, conclude) (fail_all-IsBalanced configs k m h)
        | inr (app, done) ↦
            rw (done, conclude) (retry_all-IsBalanced access configs k (record m { app = app }) h)
      ]

-- The call that waits is the one that failed, and it fails for the first time.
pub on_error-await :
    {S : Type 0} (hooks : Option (AuthHooks S)) (s : S) (status : Option ℕ) (keep : Bool)
    (original config : Config) (token : String)
    → (on_error hooks s (error_of original status keep)).1 ≡ await_refresh config token
    → (config ≡ record original { retried = true }) × (original.retried ≡ false) × (keep ≡ true)
unfolding on_error
on_error-await hooks s status false original config token h = cc
on_error-await hooks s status true original config token h =
    elim (Option-cases (refresh_token hooks s)) [
      | inl signed_out ↦ absurd (ground arith)
      | inr (t, e) ↦ (ground arith, ground arith, refl)
    ]

module _ {S : Type 0} (hooks : Option (AuthHooks S)) (n : ℕ) where
  on_answer-IsBalanced :
      (config : Config) (answer : Answer) (k : ℕ) (m : Machine S)
      → IsBalanced n (k + of_config n config) m
      → IsBalanced n k (on_answer hooks config answer m)
  unfolding on_answer
  on_answer-IsBalanced config success k m h = settle-IsBalanced n config.call resolved k m h
  on_answer-IsBalanced config (failure status keep) k m h =
      let error = error_of config status keep in
      follow-IsBalanced n config.call error (on_error hooks m.app error).1 k
        (record m { app = (on_error hooks m.app error).0 })
        (λ c t e. ap (λ d. d.call) (on_error-await hooks m.app status keep config c t e).0) h

  on_refresh_answer-IsBalanced :
      (answer : RefreshAnswer) (promise : Option (List Config)) (m : Machine S)
      → m.refresh_promise ≡ promise
      → IsBalanced n 0 m
      → IsBalanced n 0 (on_refresh_answer hooks answer promise m)
  unfolding on_refresh_answer
  on_refresh_answer-IsBalanced answer none m e h = h
  on_refresh_answer-IsBalanced answer (some configs) m e h =
      conclude-IsBalanced hooks n answer configs 0
        (record m { refresh_promise = none; refresh_answers = m.refresh_answers + 1 })
        (omega (arith, ap (λ p. total (of_config n) (waiting p)) e))

  -- Each step leaves every call in exactly one of the three places.
  pub step-IsBalanced :
      (event : Event S) (m : Machine S) → IsBalanced n 0 m → IsBalanced n 0 (step hooks event m)
  unfolding step
  step-IsBalanced (made call) m h =
      request-IsBalanced hooks n (record { call = call; authorization = none; retried = false }) 0
        (record m { calls = m.calls ++ call ∷ [] })
        (omega (arith, total-append (one n) m.calls (call ∷ [])))
  step-IsBalanced (answered place answer) m h = elim (Option-cases (pick place m.in_flight)) [
    | inl nothing ↦ rw nothing h
    | inr ((config, rest), found) ↦ rw found (
        on_answer-IsBalanced config answer 0 (record m { in_flight = rest })
          (omega (arith, total-pick (of_config n) place m.in_flight config rest found)))
  ]
  step-IsBalanced (refresh_answered answer) m h =
      on_refresh_answer-IsBalanced answer m.refresh_promise m refl h
  step-IsBalanced (changed f) m h = h

  run-IsBalanced :
      (events : List (Event S)) (m : Machine S)
      → IsBalanced n 0 m
      → IsBalanced n 0 (run hooks events m)
  unfolding run
  run-IsBalanced [] m h = h
  run-IsBalanced (event ∷ events) m h =
      run-IsBalanced events (step hooks event m) (step-IsBalanced event m h)

  -- From an idle client, after any calls, answers, refreshes and changes of the application's state,
  -- the times that a call was made are the times that it is on the wire, waits for a refresh, or was
  -- settled: no call is lost, and none is settled twice.
  pub run-accounted :
      (events : List (Event S)) (s : S)
      → let m = run hooks events (idle s) in
        total (one n) m.calls
        ≡ total (of_config n) m.in_flight
          + total (of_config n) (waiting m.refresh_promise)
          + total (of_settled n) m.settled
  run-accounted events s = omega (arith, run-IsBalanced events (idle s) (omega arith))
