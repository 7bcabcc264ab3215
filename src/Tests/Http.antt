-- ===== src/Tests/Http.antt =====
-- The http client over the auth store: two calls refused together, one refresh, two retries.
use ytshare.Base.{
  ◌+◌, ◌*◌, ◌≤◌, ◌≡◌, refl, true, false, none, some, List, [], ◌∷◌, ◌++◌, map, total,
}
use ytshare.Shared.Storage.{set_item, remove_item}
use ytshare.Auth.Session.{write_session, clear_session}
use ytshare.Auth.Store.{Auth, set_session, sign_out, update_tokens}
use ytshare.Auth.Bootstrap.{store_hooks, store_hooks-HooksLaws}
use ytshare.Http.{AuthHooks, Config, HttpError, on_request, on_error}
use ytshare.Http.Machine.{
  Machine, Event, made, answered, refresh_answered, success, failure, tokens, refused, resolved,
  request, settle, join_refresh, follow, on_answer, retry_all, fail_all, conclude,
  on_refresh_answer, step, run, idle,
}
use ytshare.Http.Conservation.{one, of_config, of_settled, waiting, run-accounted}
use ytshare.Http.Attempts.{run-sent-le}
use ytshare.Http.Refresh.{authorized, given_up, step-refresh_tokens, step-refresh_failed}
use ytshare.Tests.Codec.{codec}
use ytshare.Tests.Samples.{alice_session, empty_storage}

program : Unit {0}
unfolding on_request on_error request settle join_refresh follow on_answer retry_all fail_all
    conclude on_refresh_answer step run update_tokens set_session sign_out write_session
    clear_session set_item remove_item
program = tt

abbrev hooks : AuthHooks Auth
hooks = store_hooks codec

abbrev alice_in : Auth
alice_in = record {
  state = record { session = some alice_session; is_authenticated = true };
  window = some empty_storage;
}

-- Calls 1 and 2 are both refused.
abbrev refusals : List (Event Auth)
refusals =
    made 1
    ∷ made 2
    ∷ answered 0 (failure (some 401) true)
    ∷ answered 0 (failure (some 401) true)
    ∷ []

abbrev renewed : List (Event Auth)
renewed =
    made 1
    ∷ made 2
    ∷ answered 0 (failure (some 401) true)
    ∷ answered 0 (failure (some 401) true)
    ∷ refresh_answered (tokens "b" "s" "2100")
    ∷ answered 0 success
    ∷ []

one_refresh :
    ((run (some hooks) refusals (idle alice_in)).refresh_posts ≡ "r" ∷ [])
    × ((run (some hooks) renewed (idle alice_in)).in_flight
        ≡ record { call = 2; authorization = some "Bearer b"; retried = true } ∷ [])
    × ((run (some hooks) renewed (idle alice_in)).settled
        ≡ record { call = 1; outcome = resolved } ∷ [])
unfolding program
one_refresh = (refl, refl, refl)

run-accounted_example :
    let m = run (some hooks) renewed (idle alice_in) in
    total (one 1) m.calls
    ≡ total (of_config 1) m.in_flight
      + total (of_config 1) (waiting m.refresh_promise)
      + total (of_settled 1) m.settled
run-accounted_example = run-accounted (some hooks) 1 renewed alice_in

run-sent-le_example :
    let m = run (some hooks) renewed (idle alice_in) in
    total (one 1) m.sent ≤ 2 * total (one 1) m.calls
run-sent-le_example = run-sent-le (some hooks) 1 renewed alice_in

abbrev refused_call : Config
refused_call = record { call = 1; authorization = some "Bearer a"; retried = true }

abbrev waiting_machine : Machine Auth
waiting_machine = record (idle alice_in) { refresh_promise = some (refused_call ∷ []) }

abbrev alice_renewed : Auth
alice_renewed = record {
  state = record {
    session =
        some
          (record alice_session { access_token = "b"; refresh_token = "s"; expires_at = "2100" });
    is_authenticated = true;
  };
  window = none;
}

abbrev windowless : Auth
windowless = record alice_in { window = none }

step-refresh_tokens_example :
    let m = record waiting_machine { app = windowless } in
    let m' = step (some hooks) (refresh_answered (tokens "b" "s" "2100")) m in
    (m'.in_flight ≡ [] ++ map (authorized "b") (refused_call ∷ []))
    × (m'.settled ≡ [])
    × (m'.refresh_promise ≡ none)
    × (m'.app ≡ alice_renewed)
unfolding update_tokens set_session write_session
step-refresh_tokens_example =
    step-refresh_tokens hooks (store_hooks-HooksLaws codec) "b" "s" "2100" (refused_call ∷ [])
      (record waiting_machine { app = windowless }) alice_renewed refl refl

step-refresh_failed_example :
    let m' = step (some hooks) (refresh_answered refused) waiting_machine in
    (m'.settled ≡ [] ++ map given_up (refused_call ∷ []))
    × (m'.in_flight ≡ [])
    × (m'.refresh_promise ≡ none)
    × ((hooks.get_access_token m'.app ≡ none) × (hooks.get_refresh_token m'.app ≡ none))
step-refresh_failed_example =
    step-refresh_failed hooks (store_hooks-HooksLaws codec) refused_call [] waiting_machine refused
      refl (λ access refresh expires e. cc)

abbrev first_refusal : HttpError
first_refusal = record {
  config = some (record { call = 1; authorization = some "Bearer a"; retried = false });
  status = some 401;
}

abbrev first_call : Config
first_call = record { call = 1; authorization = some "Bearer a"; retried = false }
