-- ===== src/Auth/Identity.antt =====
-- Who is signed in changes only by signing in and out.
use ytshare.Base.{
  String, ◌≡◌, refl, ◌∙◌, ◌⊎◌, inl, inr, Option, none, some, get_or, List, [], ◌∷◌, All,
  Option-cases,
}
use ytshare.Auth.Types.{AuthSession, SessionUser}
use ytshare.Auth.Session.{SessionCodec, Window, write_session}
use ytshare.Auth.Store.{AuthState, Auth, set_session, sign_out, update_tokens, with_tokens}
use ytshare.Auth.Reload.{Call, sign_in_with, sign_out_now, tokens_refreshed, perform, perform_all}

-- `session?.user`
abbrev pub session_user : Option AuthSession → Option SessionUser
session_user none = none
session_user (some s) = some s.user

abbrev pub IsNoSignIn : Call → Type 0
IsNoSignIn (sign_in_with s) = ⊥
IsNoSignIn _ = Unit

module _ (codec : SessionCodec) where
  user-set_session :
      (next : Option AuthSession → AuthState) (session : AuthSession) (w : Window) (a : Auth)
      → session_user (next (some session)).session ≡ session_user a.state.session
      → session_user (get_or (set_session codec next session w) a).state.session
        ≡ session_user a.state.session
  unfolding set_session
  user-set_session next session w a same = elim (Option-cases (write_session codec session w)) [
    | inl thrown ↦ rw (thrown, set_session) refl
    | inr (w', wrote) ↦ rw (wrote, set_session) same
  ]

  -- Fresh tokens belong to the user who is signed in, and sign nobody in.
  pub user-update_tokens :
      (access refresh expires : String) (a : Auth)
      → session_user (get_or (update_tokens codec access refresh expires a) a).state.session
        ≡ session_user a.state.session
  unfolding update_tokens
  user-update_tokens access refresh expires a = elim (Option-cases a.state.session) [
    | inl out ↦ simp (out, update_tokens) refl
    | inr (current, here) ↦
        simp (here, update_tokens)
          (user-set_session (λ t. record a.state { session = t })
              (with_tokens current access refresh expires) a.window a (rw here refl)
            ∙ rw here refl)
  ]

  -- Without a sign-in, after any calls the user is the one before or nobody; nobody stays nobody.
  pub user-perform_all :
      (calls : List Call) (a : Auth)
      → All IsNoSignIn calls
      → (session_user (perform_all codec calls a).state.session ≡ session_user a.state.session)
        ⊎ (session_user (perform_all codec calls a).state.session ≡ none)
  unfolding perform_all perform sign_out
  user-perform_all [] a _ = inl refl
  user-perform_all (sign_in_with s ∷ calls) a (h, _) = absurd h
  user-perform_all (sign_out_now ∷ calls) a (_, h) = elim (user-perform_all calls (sign_out a) h) [
    | inl e ↦ inr e
    | inr e ↦ inr e
  ]
  user-perform_all (tokens_refreshed access refresh expires ∷ calls) a (_, h) =
      let a' = get_or (update_tokens codec access refresh expires a) a in
      elim (user-perform_all calls a' h) [
        | inl e ↦ inl (e ∙ user-update_tokens access refresh expires a)
        | inr e ↦ inr e
      ]
