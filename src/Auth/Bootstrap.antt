-- ===== src/Auth/Bootstrap.antt =====
-- frontend/src/modules/auth/utils/auth-bootstrap.utils.ts: the auth store behind the http client.
use ytshare.Base.{
  String, ◌≡◌, refl, ap, ◌∙◌, true, false, Bool-cases, ◌⊎◌, inl, inr, Option, none, some,
  Option-cases, arith,
}
use ytshare.Shared.Storage.{Storage, set_item}
use ytshare.Auth.Types.{AuthSession}
use ytshare.Auth.Session.{
  SessionCodec, read_session, write_session, clear_session, with_session, read_session-with_session,
  read_session-clear_session,
}
use ytshare.Auth.Store.{Auth, sign_out, with_tokens, update_tokens, set_session}
use ytshare.Http.{AuthHooks}
use ytshare.Http.Refresh.{HooksLaws}

-- `session?.accessToken ?? null`, and the same of the refresh token.
abbrev access_of : Option AuthSession → Option String
access_of none = none
access_of (some s) = some s.access_token

abbrev refresh_of : Option AuthSession → Option String
refresh_of none = none
refresh_of (some s) = some s.refresh_token

module _ (codec : SessionCodec) where
  -- What `bootstrapAuth` hands to `configureAuth`.
  abbrev pub store_hooks : AuthHooks Auth
  store_hooks = record {
    get_access_token = λ a. access_of a.state.session;
    get_refresh_token = λ a. refresh_of a.state.session;
    on_tokens_refreshed = update_tokens codec;
    on_auth_failed = sign_out;
  }

  access-update_tokens :
      (access refresh expires : String) (a a' : Auth)
      → update_tokens codec access refresh expires a ≡ some a'
      → (access_of a'.state.session ≡ none) ⊎ (access_of a'.state.session ≡ some access)
  unfolding update_tokens set_session
  access-update_tokens access refresh expires a a' e = elim (Option-cases a.state.session) [
    | inl out ↦ inl (ground arith)
    | inr (current, here) ↦ inr (ground arith)
  ]

  -- The store keeps the client's assumptions.
  pub store_hooks-HooksLaws : HooksLaws store_hooks
  unfolding sign_out
  store_hooks-HooksLaws = record {
    fresh_token = access-update_tokens;
    failed_access = λ a. refl;
    failed_refresh = λ a. refl;
  }

  -- What a refresh leaves of a session: the new tokens are handed out, and stored, and the rest is
  -- as it was.
  pub record IsRenewed (access refresh expires : String) (current : AuthSession)
      (before after : Auth) : Type 0 where
    pub access_token : store_hooks.get_access_token after ≡ some access
    pub refresh_token : store_hooks.get_refresh_token after ≡ some refresh
    pub session : after.state.session ≡ some (with_tokens current access refresh expires)
    pub stored : read_session codec after.window ≡ after.state.session
    pub authenticated : after.state.is_authenticated ≡ before.state.is_authenticated

  abbrev renewed_auth : AuthSession → Storage → Auth → Auth
  renewed_auth session st a = record {
    state = record a.state { session = some session };
    window = some (with_session codec session st);
  }

  update_tokens_writes :
      (access refresh expires : String) (current : AuthSession) (st : Storage) (a : Auth)
      → a.state.session ≡ some current
      → a.window ≡ some st
      → st.writable ≡ true
      → update_tokens codec access refresh expires a
        ≡ some (renewed_auth (with_tokens current access refresh expires) st a)
  unfolding update_tokens set_session write_session set_item
  update_tokens_writes access refresh expires current st a here w free = rw (here, w, free) refl

  update_tokens_throws :
      (access refresh expires : String) (current : AuthSession) (st : Storage) (a : Auth)
      → a.state.session ≡ some current
      → a.window ≡ some st
      → st.writable ≡ false
      → update_tokens codec access refresh expires a ≡ none
  unfolding update_tokens set_session write_session set_item
  update_tokens_throws access refresh expires current st a here w full = rw (here, w, full) refl

  update_tokens_signed_out :
      (access refresh expires : String) (a : Auth)
      → a.state.session ≡ none
      → update_tokens codec access refresh expires a ≡ some a
  unfolding update_tokens
  update_tokens_signed_out access refresh expires a out = rw out refl

  -- What the hook does with new tokens: they get into the session, or the storage refuses them and
  -- the hook throws, or the user has signed out meanwhile and they are dropped.
  abbrev pub IsHandled : (access refresh expires : String) → Storage → Auth → Type 0
  IsHandled access refresh expires st a =
      let handled = store_hooks.on_tokens_refreshed access refresh expires a in
      ((current : AuthSession) × (after : Auth) × ((a.state.session ≡ some current)
          × (st.writable ≡ true)
          × (handled ≡ some after)
          × IsRenewed access refresh expires current a after))
      ⊎ (((st.writable ≡ false) × (handled ≡ none))
          ⊎ ((a.state.session ≡ none) × (handled ≡ some a)))

  -- With a storage, refreshed tokens get into a session that there is, in the store and in the
  -- storage, and are the tokens that requests and the next refresh use; the user stays signed in. Only
  -- a storage that refuses writes makes the hook throw, and without a session nothing changes. After
  -- a failed refresh neither the store nor the storage has a session, and no token is handed out.
  pub store_hooks-refreshed :
      (access refresh expires : String) (st : Storage) (a : Auth)
      → a.window ≡ some st
      → IsHandled access refresh expires st a
        × (store_hooks.get_access_token (store_hooks.on_auth_failed a) ≡ none)
        × (store_hooks.get_refresh_token (store_hooks.on_auth_failed a) ≡ none)
        × (read_session codec (store_hooks.on_auth_failed a).window ≡ none)
  unfolding sign_out
  store_hooks-refreshed access refresh expires st a w = (
    elim (Option-cases a.state.session) [
      | inl out ↦ inr (inr (out, update_tokens_signed_out access refresh expires a out))
      | inr (current, here) ↦ elim (Bool-cases st.writable) [
        | inl free ↦ inl (
          current,
          renewed_auth (with_tokens current access refresh expires) st a,
          (
            here,
            free,
            update_tokens_writes access refresh expires current st a here w free,
            record {
              access_token = refl;
              refresh_token = refl;
              session = refl;
              stored =
                  read_session-with_session codec (with_tokens current access refresh expires) st;
              authenticated = refl;
            },
          ),
        )
        | inr full ↦
            inr (inl (full, update_tokens_throws access refresh expires current st a here w full))
      ]
    ],
    refl,
    refl,
    ap (λ window. read_session codec (clear_session window)) w
        ∙ read_session-clear_session codec st,
  )
