-- ===== src/Auth/Client.antt =====
-- The HTTP client at work over the auth store.
use ytshare.Base.{String, ◌≡◌, some, List, [], ◌∷◌, All, get_or}
use ytshare.Shared.Storage.{Storage}
use ytshare.Auth.Session.{SessionCodec}
use ytshare.Auth.Store.{Auth, init, update_tokens, sign_out}
use ytshare.Auth.Reload.{
  Call, sign_out_now, tokens_refreshed, perform, IsSynced, init-IsSynced, init_of_IsSynced,
  perform-IsSynced,
}
use ytshare.Auth.Bootstrap.{store_hooks}
use ytshare.Http.Machine.{Event, made, answered, refresh_answered, changed, run, idle}
use ytshare.Http.Kept.{IsKept, run_keeps}

module _ (codec : SessionCodec) where
  -- The page changes the store by its actions only.
  abbrev pub IsAction : Event Auth → Type 0
  IsAction (changed f) = (call : Call) × ((a : Auth) → f a ≡ perform codec call a)
  IsAction _ = Unit

  refreshed :
      (access refresh expires : String) (a a' : Auth)
      → update_tokens codec access refresh expires a ≡ some a'
      → IsSynced codec a
      → IsSynced codec a'
  unfolding perform
  refreshed access refresh expires a a' e synced =
      let s : IsSynced codec (get_or (update_tokens codec access refresh expires a) a) =
        perform-IsSynced codec (tokens_refreshed access refresh expires) a synced in
      rw e at s

  gave_up : (a : Auth) → IsSynced codec a → IsSynced codec (sign_out a)
  unfolding perform
  gave_up a synced = perform-IsSynced codec sign_out_now a synced

  abbrev IsUpheld : Event Auth → Type 0
  IsUpheld event = IsKept (store_hooks codec) (IsSynced codec) refreshed gave_up event

  action-IsUpheld : (event : Event Auth) → IsAction event → IsUpheld event
  action-IsUpheld (made call) k = tt
  action-IsUpheld (answered place answer) k = tt
  action-IsUpheld (refresh_answered answer) k = tt
  action-IsUpheld (changed f) (call, same) =
      λ a synced. rw (same a) (perform-IsSynced codec call a synced)

  actions-IsUpheld : (events : List (Event Auth)) → All IsAction events → All IsUpheld events
  actions-IsUpheld [] _ = tt
  actions-IsUpheld (event ∷ events) (k, ks) = (action-IsUpheld event k, actions-IsUpheld events ks)

  -- While the client calls, is refused, refreshes and gives up, in any order with the page's own
  -- actions on the store, the storage keeps up: a page that is loaded again starts with the session
  -- and the flag that the client's hooks see.
  pub run-init :
      (events : List (Event Auth)) (st : Storage)
      → All IsAction events
      → let a = (run (some (store_hooks codec)) events (idle (init codec (some st)))).app in
        init codec a.window ≡ a
  run-init events st actions = init_of_IsSynced codec _ (
      run_keeps (store_hooks codec) (IsSynced codec) refreshed gave_up events
        (idle (init codec (some st))) (actions-IsUpheld events actions) (init-IsSynced codec st))
