-- ===== src/Tests/Auth.antt =====
-- The auth store at a concrete codec and storage.
use ytshare.Base.{◌≡◌, refl, true, none, some, is_some, List, [], ◌∷◌}
use ytshare.Auth.Session.{read_session, write_session, clear_session}
use ytshare.Shared.Storage.{set_item, remove_item}
use ytshare.Auth.Store.{Auth, init, set_session, sign_in, sign_out, update_tokens}
use ytshare.Auth.Reload.{
  Call, sign_in_with, sign_out_now, tokens_refreshed, perform, perform_all, init-perform_all,
}
use ytshare.Auth.Identity.{session_user}
use ytshare.Auth.Bootstrap.{store_hooks, IsHandled, store_hooks-refreshed}
use ytshare.Http.Machine.{
  Event, changed, made, answered, failure, refresh_answered, tokens, run, idle,
}
use ytshare.Auth.Client.{run-init}
use ytshare.Tests.Codec.{codec}
use ytshare.Tests.Samples.{alice, alice_session, empty_storage}

program : Unit {0}
unfolding init set_session sign_in sign_out update_tokens perform perform_all read_session
    write_session clear_session set_item remove_item
program = tt

abbrev signed_in : Auth
signed_in = perform_all codec (sign_in_with alice_session ∷ []) (init codec (some empty_storage))

-- The tests of auth.store.test.ts.
store_tests :
    (signed_in.state.is_authenticated ≡ true)
    × (session_user signed_in.state.session ≡ some alice)
    × ((sign_out signed_in).state.session ≡ none)
    × (read_session codec (sign_out signed_in).window ≡ none)
    × (session_user (perform codec (tokens_refreshed "new" "newer" "2099") signed_in).state.session
        ≡ some alice)
unfolding program
store_tests = (refl, refl, refl, refl, refl)

abbrev calls : List Call
calls = sign_in_with alice_session ∷ tokens_refreshed "new" "newer" "2099" ∷ []

init-perform_all_example :
    let a = perform_all codec calls (init codec (some empty_storage)) in
    (init codec a.window ≡ a) × (a.state.is_authenticated ≡ is_some a.state.session)
init-perform_all_example = init-perform_all codec calls empty_storage

abbrev later : List Call
later = tokens_refreshed "new" "newer" "2099" ∷ sign_out_now ∷ []

abbrev alice_auth : Auth
alice_auth = record {
  state = record { session = some alice_session; is_authenticated = true };
  window = some empty_storage;
}

store_hooks-refreshed_example :
    IsHandled codec "new" "newer" "2099" empty_storage alice_auth
    × ((store_hooks codec).get_access_token ((store_hooks codec).on_auth_failed alice_auth) ≡ none)
    × ((store_hooks codec).get_refresh_token ((store_hooks codec).on_auth_failed alice_auth) ≡ none)
    × (read_session codec ((store_hooks codec).on_auth_failed alice_auth).window ≡ none)
store_hooks-refreshed_example =
    store_hooks-refreshed codec "new" "newer" "2099" empty_storage alice_auth refl

-- Alice signs in, a call of hers is refused, and the tokens are renewed.
abbrev renewal : List (Event Auth)
renewal =
    changed (perform codec (sign_in_with alice_session))
    ∷ made 1
    ∷ answered 0 (failure (some 401) true)
    ∷ refresh_answered (tokens "b" "s" "2100")
    ∷ []

run-init_example :
    let a = (run (some (store_hooks codec)) renewal (idle (init codec (some empty_storage)))).app in
    init codec a.window ≡ a
run-init_example =
    run-init codec renewal empty_storage
      ((sign_in_with alice_session, λ a. refl), (tt, (tt, (tt, tt))))
