-- ===== src/Auth/Reload.antt =====
-- The store in memory and its copy in the storage agree, so a reload finds the same session.
use ytshare.Base.{
  String, ◌≡◌, refl, sym, ap, ◌∙◌, true, Option, none, some, get_or, is_some, List, [], ◌∷◌,
  Option-cases, inl, inr,
}
use ytshare.Auth.Types.{AuthSession}
use ytshare.Auth.Session.{
  SessionCodec, Window, read_session, write_session, clear_session, with_session,
  write_session-eq-some, read_session-with_session, read_session-clear_session,
}
use ytshare.Shared.Storage.{Storage}
use ytshare.Auth.Store.{
  AuthState, Auth, init, set_session, sign_in, sign_out, update_tokens, with_tokens,
}

-- A call of one of the store's three functions.
pub data Call : Type 0 where
  sign_in_with : AuthSession → Call
  sign_out_now : Call
  tokens_refreshed : (access refresh expires : String) → Call

module _ (codec : SessionCodec) where
  -- A call that throws leaves the store and the storage as they were.
  unfoldable pub perform : Call → Auth → Auth
  perform (sign_in_with session) a = get_or (sign_in codec session a) a
  perform sign_out_now a = sign_out a
  perform (tokens_refreshed access refresh expires) a =
      get_or (update_tokens codec access refresh expires a) a

  unfoldable pub perform_all : List Call → Auth → Auth
  perform_all [] a = a
  perform_all (call ∷ calls) a = perform_all calls (perform call a)

  pub record IsSynced (a : Auth) : Type 0 where
    pub present : is_some a.window ≡ true
    pub flag : a.state.is_authenticated ≡ is_some a.state.session
    pub stored : read_session codec a.window ≡ a.state.session

  pub init-IsSynced : (st : Storage) → IsSynced (init codec (some st))
  unfolding init
  init-IsSynced st = record { present = refl; flag = refl; stored = refl }

  sign_out-IsSynced :
      (state : AuthState) (w : Window)
      → is_some w ≡ true
      → IsSynced (sign_out (record { state = state; window = w }))
  unfolding sign_out clear_session
  sign_out-IsSynced state none h = cc
  sign_out-IsSynced state (some st) h = record {
    present = refl;
    flag = refl;
    stored = read_session-clear_session codec st;
  }

  -- A write that does not throw stores what the store is set to.
  set_session-IsSynced :
      (next : Option AuthSession → AuthState) (session : AuthSession) (w : Window) (a : Auth)
      → ((next (some session)).is_authenticated ≡ true)
      → ((next (some session)).session ≡ some session)
      → is_some w ≡ true
      → IsSynced a
      → IsSynced (get_or (set_session codec next session w) a)
  unfolding set_session
  set_session-IsSynced next session none a flag same h s = cc
  set_session-IsSynced next session (some st) a flag same h s =
      elim (Option-cases (write_session codec session (some st))) [
        | inl thrown ↦ rw (thrown, set_session) s
        | inr (w', wrote) ↦
            let e : w' ≡ some (with_session codec session st) =
              write_session-eq-some codec session st wrote in
            rw (wrote, set_session)
              (rw e (record {
                present = refl;
                flag = flag ∙ ap is_some (sym same);
                stored = read_session-with_session codec session st ∙ sym same;
              }))
      ]

  update_tokens-IsSynced :
      (access refresh expires : String) (a : Auth)
      → IsSynced a
      → IsSynced (get_or (update_tokens codec access refresh expires a) a)
  unfolding update_tokens
  update_tokens-IsSynced access refresh expires a s = elim (Option-cases a.state.session) [
    | inl out ↦ simp (out, update_tokens) s
    | inr (current, here) ↦
        simp (here, update_tokens)
          (set_session-IsSynced (λ t. record a.state { session = t })
            (with_tokens current access refresh expires) a.window a (s.flag ∙ ap is_some here) refl
            s.present s)
  ]

  pub perform-IsSynced : (call : Call) (a : Auth) → IsSynced a → IsSynced (perform call a)
  unfolding perform sign_in
  perform-IsSynced (sign_in_with session) a s =
      set_session-IsSynced (λ t. record { session = t; is_authenticated = true }) session a.window a
        refl refl s.present s
  perform-IsSynced sign_out_now a s = sign_out-IsSynced a.state a.window s.present
  perform-IsSynced (tokens_refreshed access refresh expires) a s =
      update_tokens-IsSynced access refresh expires a s

  perform_all-IsSynced :
      (calls : List Call) (a : Auth) → IsSynced a → IsSynced (perform_all calls a)
  unfolding perform_all
  perform_all-IsSynced [] a s = s
  perform_all-IsSynced (call ∷ calls) a s =
      perform_all-IsSynced calls (perform call a) (perform-IsSynced call a s)

  pub init_of_IsSynced : (a : Auth) → IsSynced a → init codec a.window ≡ a
  unfolding init
  init_of_IsSynced a s = λ i. record {
    state = record {
      session = s.stored i;
      is_authenticated = (ap is_some s.stored ∙ sym s.flag) i;
    };
    window = a.window;
  }

  -- After any calls, throwing ones included, a page that is loaded again starts with the session
  -- and the flag that the store has now, and the flag says whether there is a session.
  pub init-perform_all :
      (calls : List Call) (st : Storage)
      → let a = perform_all calls (init codec (some st)) in
        (init codec a.window ≡ a) × (a.state.is_authenticated ≡ is_some a.state.session)
  init-perform_all calls st =
      let s = perform_all-IsSynced calls (init codec (some st)) (init-IsSynced st) in
      (init_of_IsSynced (perform_all calls (init codec (some st))) s, s.flag)
