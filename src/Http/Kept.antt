-- ===== src/Http/Kept.antt =====
-- What the hooks keep of the application's state, the client keeps.
use ytshare.Base.{ℕ, String, ◌≡◌, refl, some, Option-cases, List, [], ◌∷◌, inl, inr, All, arith}
use ytshare.Http.{AuthHooks, Config, HttpError, Verdict, reject, await_refresh, on_error}
use ytshare.Http.Machine.{
  Answer, success, failure, RefreshAnswer, tokens, refused, Machine, Event, made, answered,
  refresh_answered, changed, pick, error_of, settle, join_refresh, follow, request, on_answer,
  retry_all, fail_all, conclude, on_refresh_answer, step, run,
}

module _ {S : Type 0} (h : AuthHooks S) (P : S → Type 0)
    (refreshed : (access refresh expires : String) (s s' : S)
      → h.on_tokens_refreshed access refresh expires s ≡ some s'
      → P s
      → P s')
    (failed : (s : S) → P s → P (h.on_auth_failed s)) where
  on_error_keeps : (s : S) (error : HttpError) → P s → P (on_error (some h) s error).0
  unfolding on_error
  on_error_keeps s error p = ground (arith, failed s p)

  follow-app :
      (call : ℕ) (error : HttpError) (verdict : Verdict) (m : Machine S)
      → (follow call error verdict m).app ≡ m.app
  unfolding follow settle join_refresh
  follow-app call error reject m = refl
  follow-app call error (await_refresh config token) m = elim (Option-cases m.refresh_promise) [
    | inl no_refresh ↦ rw no_refresh refl
    | inr (waiting, e) ↦ rw e refl
  ]

  on_answer_keeps :
      (config : Config) (answer : Answer) (m : Machine S)
      → P m.app
      → P (on_answer (some h) config answer m).app
  unfolding on_answer settle
  on_answer_keeps config success m p = p
  on_answer_keeps config (failure status keeps_config) m p =
      let error = error_of config status keeps_config in
      rw
        (follow-app config.call error (on_error (some h) m.app error).1
          (record m { app = (on_error (some h) m.app error).0 }))
        (on_error_keeps m.app error p)

  retry_all-app :
      (access : String) (waiting : List Config) (m : Machine S)
      → (retry_all (some h) access waiting m).app ≡ m.app
  unfolding retry_all request
  retry_all-app access [] m = refl
  retry_all-app access (config ∷ waiting) m = retry_all-app access waiting _

  fail_all_keeps :
      (waiting : List Config) (m : Machine S) → P m.app → P (fail_all (some h) waiting m).app
  unfolding fail_all settle
  fail_all_keeps [] m p = p
  fail_all_keeps (config ∷ waiting) m p = fail_all_keeps waiting _ (failed m.app p)

  conclude_keeps :
      (answer : RefreshAnswer) (waiting : List Config) (m : Machine S)
      → P m.app
      → P (conclude (some h) answer waiting m).app
  unfolding conclude
  conclude_keeps refused waiting m p = fail_all_keeps waiting m p
  conclude_keeps (tokens access refresh expires) waiting m p =
      elim (Option-cases (h.on_tokens_refreshed access refresh expires m.app)) [
        | inl thrown ↦ rw (thrown, conclude) (fail_all_keeps waiting m p)
        | inr (s, e) ↦
            rw (e, conclude)
              (rw (retry_all-app access waiting (record m { app = s }))
                (refreshed access refresh expires m.app s e p))
      ]

  -- A change of the state that the client does not make keeps it too.
  abbrev pub IsKept : Event S → Type 0
  IsKept (changed f) = (s : S) → P s → P (f s)
  IsKept _ = Unit

  step_keeps :
      (event : Event S) (m : Machine S) → IsKept event → P m.app → P (step (some h) event m).app
  unfolding step request on_refresh_answer
  step_keeps (made call) m k p = p
  step_keeps (answered place answer) m k p = elim (Option-cases (pick place m.in_flight)) [
    | inl nobody ↦ rw nobody p
    | inr ((config, rest), e) ↦
        rw e (on_answer_keeps config answer (record m { in_flight = rest }) p)
  ]
  step_keeps (refresh_answered answer) m k p = elim (Option-cases m.refresh_promise) [
    | inl none_waits ↦ rw none_waits p
    | inr (waiting, e) ↦ rw e (conclude_keeps answer waiting _ p)
  ]
  step_keeps (changed f) m k p = k m.app p

  pub run_keeps :
      (events : List (Event S)) (m : Machine S)
      → All IsKept events
      → P m.app
      → P (run (some h) events m).app
  unfolding run
  run_keeps [] m _ p = p
  run_keeps (event ∷ events) m (k, ks) p =
      run_keeps events (step (some h) event m) ks (step_keeps event m k p)
