-- ===== src/Auth/Store.antt =====
-- frontend/src/modules/auth/stores/auth.store.ts: the session in memory, and the storage that it is
-- written through to.
use ytshare.Base.{String, Bool, true, false, Option, none, some, is_some}
use ytshare.Auth.Types.{AuthSession}
use ytshare.Auth.Session.{SessionCodec, Window, read_session, write_session, clear_session}

pub record AuthState : Type 0 where
  pub session : Option AuthSession
  pub is_authenticated : Bool

-- The store and the browser's storage.
pub record Auth : Type 0 where
  pub state : AuthState
  pub window : Window

unfoldable pub sign_out : Auth → Auth
sign_out a = record {
  state = record { session = none; is_authenticated = false };
  window = clear_session a.window;
}

-- `{ ...current, accessToken, refreshToken, expiresAt }`
abbrev pub with_tokens : AuthSession → String → String → String → AuthSession
with_tokens current access refresh expires = record current {
  access_token = access;
  refresh_token = refresh;
  expires_at = expires;
}

module _ (codec : SessionCodec) where
  -- The state that `create` starts with.
  unfoldable pub init : Window → Auth
  init w = record {
    state = record {
      session = read_session codec w;
      is_authenticated = is_some (read_session codec w);
    };
    window = w;
  }

  -- Writes first: where that throws (`none`), the store is as it was.
  unfoldable pub set_session : (Option AuthSession → AuthState) → AuthSession → Window → Option Auth
  set_session next session w = elim (write_session codec session w) [
    | none ↦ none
    | some w' ↦ some (record { state = next (some session); window = w' })
  ]

  unfoldable pub sign_in : AuthSession → Auth → Option Auth
  unfolding set_session
  sign_in session a =
      set_session (λ s. record { session = s; is_authenticated = true }) session a.window

  unfoldable pub update_tokens : String → String → String → Auth → Option Auth
  unfolding set_session
  update_tokens access refresh expires a = elim a.state.session [
    | none ↦ some a
    | some current ↦
        set_session (λ s. record a.state { session = s })
          (with_tokens current access refresh expires) a.window
  ]
