-- ===== src/Pages/Outcomes.antt =====
-- How submissions end.
use ytshare.Base.{
  ℕ, String, ◌≡◌, refl, ap, ◌∙◌, Bool, nat_eq, ◌⊎◌, inl, inr, true, false, Bool-cases, none, some,
  [], ◌∷◌, ◌++◌,
}
use ytshare.Shared.Storage.{Storage, set_item}
use ytshare.Shared.Query.{KeyMatch, selects}
use ytshare.Auth.Session.{
  SessionCodec, read_session, write_session, clear_session, read_session-clear_session,
  with_session, read_session-with_session,
}
use ytshare.Http.{on_error}
use ytshare.Auth.Types.{AuthSession}
use ytshare.Auth.Store.{Auth, sign_out, sign_in, set_session}
use ytshare.Auth.Services.{ServerAuthResponse, to_session}
use ytshare.Routes.{load, shown, home, found, before_load}
use ytshare.Videos.Types.{Video}
use ytshare.Videos.Keys.{videos_all, videos_list}
use ytshare.Shared.Query.Selects.{selects-append_covering, covers_prefix}
use ytshare.Pages.{
  Toast, success, error, Caught, axios_error, other, has_status, Browser, toast, Result, ok, failed,
  sign_in_error, sign_up_error, intercepted, enter, submit_sign_in, submit_sign_up, submit_share,
  share_error,
}

-- What a submission that fails does besides the store: it adds one toast, an error.
pub record IsReported (before after : Browser) : Type 0 where
  pub queries : after.queries ≡ before.queries
  pub path : after.path ≡ before.path
  pub toasts : (key : String) × (after.toasts ≡ before.toasts ++ error key ∷ [])

reported : (key : String) (b : Browser) → IsReported b (toast (error key) b)
reported key b = record { queries = refl; path = refl; toasts = (key, refl) }

module _ (codec : SessionCodec) where
  -- One that succeeds signs in as the user of the answer, in the store and in the storage, and leads
  -- to the home page, which is shown.
  pub record IsEntered (answer : ServerAuthResponse) (before after : Browser) : Type 0 where
    pub state :
        after.auth.state ≡ record { session = some (to_session answer); is_authenticated = true }
    pub stored : read_session codec after.auth.window ≡ some (to_session answer)
    pub page : load 2 after.auth.state after.path ≡ shown home
    pub queries : after.queries ≡ before.queries

  abbrev written_auth : AuthSession → Storage → Auth
  written_auth session st = record {
    state = record { session = some session; is_authenticated = true };
    window = some (with_session codec session st);
  }

  sign_in_writes :
      (session : AuthSession) (st : Storage) (a : Auth)
      → a.window ≡ some st
      → st.writable ≡ true
      → sign_in codec session a ≡ some (written_auth session st)
  unfolding sign_in set_session write_session set_item
  sign_in_writes session st a w free = rw (w, free) refl

  sign_in_throws :
      (session : AuthSession) (st : Storage) (a : Auth)
      → a.window ≡ some st
      → st.writable ≡ false
      → sign_in codec session a ≡ none
  unfolding sign_in set_session write_session set_item
  sign_in_throws session st a w full = rw (w, full) refl

  enter-IsEntered :
      (welcome : Toast) (on_error : Caught → Toast) (answer : ServerAuthResponse) (st : Storage)
      (b : Browser)
      → b.auth.window ≡ some st
      → st.writable ≡ true
      → IsEntered answer b (enter codec welcome on_error (to_session answer) b)
  unfolding load found before_load
  enter-IsEntered welcome on_error answer st b w free =
      rw (sign_in_writes (to_session answer) st b.auth w free) (record {
        state = refl;
        stored = read_session-with_session codec (to_session answer) st;
        page = refl;
        queries = refl;
      })

  -- An answer of the server signs the user in, by either form, if there is a storage that accepts
  -- writes: in the store and in the storage, as the user of the answer, and on the home page.
  pub submit-IsEntered :
      (answer : ServerAuthResponse) (st : Storage) (b : Browser)
      → b.auth.window ≡ some st
      → st.writable ≡ true
      → IsEntered answer b (submit_sign_in codec (ok answer) b)
        × IsEntered answer b (submit_sign_up codec (ok answer) b)
  unfolding submit_sign_in submit_sign_up
  submit-IsEntered answer st b w free = (
    enter-IsEntered (success "toast.signedIn" (some answer.user.name)) sign_in_error answer st b w
        free,
    enter-IsEntered (success "toast.signedUp" none) sign_up_error answer st b w free,
  )

  -- What keeps a submission from succeeding: the request, or a storage that refuses the session.
  abbrev pub IsBlocked : Result ServerAuthResponse → Storage → Type 0
  IsBlocked (ok answer) st = st.writable ≡ false
  IsBlocked (failed caught) st = Unit

  abbrev pub is_unauthorized : Result ServerAuthResponse → Bool
  is_unauthorized (ok answer) = false
  is_unauthorized (failed caught) = has_status 401 caught

  -- What is left of the store and of the storage: all of it, or nothing of a session.
  abbrev pub IsLeft : (unauthorized : Bool) → Auth → Auth → Type 0
  IsLeft false before after = after ≡ before
  IsLeft true before after =
      (after.state ≡ record { session = none; is_authenticated = false })
      × (after.window ≡ clear_session before.window)
      × (read_session codec after.window ≡ none)

  pub record IsRefused (result : Result ServerAuthResponse) (before after : Browser) : Type 0 where
    pub auth : IsLeft (is_unauthorized result) before.auth after.auth
    pub reported : IsReported before after

  intercepted-IsLeft :
      (caught : Caught) (st : Storage) (b : Browser)
      → b.auth.state.session ≡ none
      → b.auth.window ≡ some st
      → IsLeft (has_status 401 caught) b.auth (intercepted codec caught b).auth
  unfolding on_error sign_out
  intercepted-IsLeft other st b out w = refl
  intercepted-IsLeft (axios_error none) st b out w = refl
  intercepted-IsLeft (axios_error (some status)) st b out w =
      elim (Bool-cases (nat_eq status 401)) [
        | inl bad ↦
            rw (bad, out)
              (
                refl,
                refl,
                ap (λ v. read_session codec (clear_session v)) w
                    ∙ read_session-clear_session codec st,
              )
        | inr else_wrong ↦ rw else_wrong refl
      ]

  sign_in-IsReported :
      (caught : Caught) (b : Browser) → IsReported b (toast (sign_in_error caught) b)
  sign_in-IsReported caught b = elim (Bool-cases (has_status 401 caught)) [
    | inl bad ↦ rw bad (reported "toast.invalidCredentials" b)
    | inr else_wrong ↦ rw else_wrong (reported "toast.genericError" b)
  ]

  sign_up-IsReported :
      (caught : Caught) (b : Browser) → IsReported b (toast (sign_up_error caught) b)
  sign_up-IsReported caught b = elim (Bool-cases (has_status 409 caught)) [
    | inl taken ↦ rw taken (reported "toast.emailTaken" b)
    | inr else_wrong ↦ rw else_wrong (reported "toast.genericError" b)
  ]

  failed-IsRefused :
      (on_error : Caught → Toast) (caught : Caught) (st : Storage) (b : Browser)
      → ((b : Browser) → IsReported b (toast (on_error caught) b))
      → b.auth.state.session ≡ none
      → b.auth.window ≡ some st
      → IsRefused (failed caught) b (toast (on_error caught) (intercepted codec caught b))
  failed-IsRefused on_error caught st b reports out w =
      let said = reports (intercepted codec caught b) in
      record {
        auth = intercepted-IsLeft caught st b out w;
        reported = record { queries = said.queries; path = said.path; toasts = said.toasts };
      }

  -- Without a session in the store, a submission that the server refuses, or whose session the
  -- storage refuses, leaves the page and the queries alone, in either form, and adds one error to the
  -- toasts. It leaves the store and the storage as they were as well, unless the status is 401: then
  -- neither holds a session afterwards, also if the storage held one, of another tab, say.
  pub submit-IsRefused :
      (result : Result ServerAuthResponse) (st : Storage) (b : Browser)
      → b.auth.state.session ≡ none
      → b.auth.window ≡ some st
      → IsBlocked result st
      → IsRefused result b (submit_sign_in codec result b)
        × IsRefused result b (submit_sign_up codec result b)
  unfolding submit_sign_in submit_sign_up
  submit-IsRefused (ok answer) st b out w full =
      rw (sign_in_throws (to_session answer) st b.auth w full) (
        record { auth = refl; reported = reported "toast.genericError" b },
        record { auth = refl; reported = reported "toast.genericError" b },
      )
  submit-IsRefused (failed caught) st b out w _ = (
    failed-IsRefused sign_in_error caught st b (sign_in-IsReported caught) out w,
    failed-IsRefused sign_up_error caught st b (sign_up-IsReported caught) out w,
  )

share-IsReported : (caught : Caught) (b : Browser) → IsReported b (toast (share_error caught) b)
share-IsReported caught b = elim (Bool-cases (has_status 400 caught)) [
  | inl bad ↦ rw bad (reported "toast.invalidUrl" b)
  | inr else_wrong ↦ elim (Bool-cases (has_status 409 caught)) [
    | inl twice ↦ rw (else_wrong, twice) (reported "toast.alreadyShared" b)
    | inr unknown ↦ rw (else_wrong, unknown) (reported "toast.genericError" b)
  ]
]

module _ (m : KeyMatch) where
  -- A share that succeeds marks every page of the video list as stale, and leads to the home page,
  -- whoever is signed in; one that fails adds one error to the toasts, and changes nothing else.
  pub submit_share_lem :
      (result : Result Video) (b : Browser) (limit offset : ℕ)
      → ((video : Video) × (result ≡ ok video)
          × (selects m (submit_share result b).queries.invalidated (videos_list limit offset)
              ≡ true)
          × (load 2 (submit_share result b).auth.state (submit_share result b).path ≡ shown home)
          × ((submit_share result b).auth ≡ b.auth))
        ⊎ ((caught : Caught) × (result ≡ failed caught)
            × ((submit_share result b).auth ≡ b.auth)
            × IsReported b (submit_share result b))
  unfolding submit_share load found before_load
  submit_share_lem (ok video) b limit offset = inl (video, refl, lists_stale, refl, refl)
    where
      lists_stale :
          selects m (b.queries.invalidated ++ videos_all ∷ []) (videos_list limit offset) ≡ true
      lists_stale =
          selects-append_covering m b.queries.invalidated videos_all (videos_list limit offset)
            (covers_prefix m ("videos" ∷ []) _)
  submit_share_lem (failed caught) b limit offset =
      inr (caught, refl, refl, share-IsReported caught b)
