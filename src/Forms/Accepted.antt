-- ===== src/Forms/Accepted.antt =====
-- What the forms submit.
use ytshare.Base.{ℕ, ◌≤◌, String, ◌≡◌, ◌↔◌, refl, Bool, true, Option, none, some, [], arith}
use ytshare.Auth.Types.{SignInPayload, SignUpPayload}
use ytshare.Videos.Types.{ShareVideoPayload}
use ytshare.Shared.Text.{text_length}
use ytshare.Forms.{max_length, optional, sign_in_issues, sign_up_issues, share_issues}

-- An absent value, or one of so many code units at most.
abbrev pub AtMost : ℕ → Option String → Type 0
AtMost n none = Unit
AtMost n (some value) = text_length value ≤ n

optional-AtMost :
    (n : ℕ) (value : Option String) → (optional (max_length n) value ≡ true) ↔ AtMost n value
optional-AtMost n none = (λ _. tt, λ _. refl)
optional-AtMost n (some value) = (λ e. ground arith, λ h. ground arith)

module _ (is_email is_url : String → Bool) where
  -- The form of signing in submits exactly what has an address of e-mail that is not empty, and a
  -- password of 6 code units at least.
  sign_in_issues-none_iff :
      (values : SignInPayload)
      → (sign_in_issues is_email is_url values ≡ []) ↔ (
          (1 ≤ text_length values.email)
          × (is_email values.email ≡ true)
          × (6 ≤ text_length values.password))
  unfolding sign_in_issues
  sign_in_issues-none_iff values =
      (λ e. (ground arith, ground arith, ground arith), λ (a, b, c). ground arith)

  -- That of signing up asks for a name besides.
  sign_up_issues-none_iff :
      (values : SignUpPayload)
      → (sign_up_issues is_email is_url values ≡ []) ↔ (
          (1 ≤ text_length values.email)
          × (is_email values.email ≡ true)
          × (1 ≤ text_length values.name)
          × (6 ≤ text_length values.password))
  unfolding sign_up_issues
  sign_up_issues-none_iff values =
      (λ e. (ground arith, ground arith, ground arith, ground arith), λ (a, b, c, d). ground arith)

  -- The form of sharing submits exactly what has an URL that is not empty, a title of 255 code units
  -- at most, and a description of 4096, or none.
  share_issues-none_iff :
      (values : ShareVideoPayload)
      → (share_issues is_email is_url values ≡ []) ↔ (
          (1 ≤ text_length values.url)
          × (is_url values.url ≡ true)
          × AtMost 255 values.title
          × AtMost 4096 values.description)
  unfolding share_issues
  share_issues-none_iff values = (
    λ e. (
      ground arith,
      ground arith,
      (optional-AtMost 255 values.title).0 (ground arith),
      (optional-AtMost 4096 values.description).0 (ground arith),
    ),
    λ (a, b, c, d).
        (let t = (optional-AtMost 255 values.title).1 c in
          let u = (optional-AtMost 4096 values.description).1 d in rw (t, u) (ground arith)),
  )

  -- The form of signing in submits exactly what has an address of e-mail that is not empty, and a
  -- password of 6 code units at least; that of signing up asks for a name besides; that of sharing
  -- submits exactly what has an URL that is not empty, a title of 255 code units at most, and a
  -- description of 4096, or none.
  pub issues-none_iff :
      (known : SignInPayload) (new : SignUpPayload) (video : ShareVideoPayload)
      → ((sign_in_issues is_email is_url known ≡ []) ↔ (
          (1 ≤ text_length known.email)
          × (is_email known.email ≡ true)
          × (6 ≤ text_length known.password)))
        × ((sign_up_issues is_email is_url new ≡ []) ↔ (
            (1 ≤ text_length new.email)
            × (is_email new.email ≡ true)
            × (1 ≤ text_length new.name)
            × (6 ≤ text_length new.password)))
        × ((share_issues is_email is_url video ≡ []) ↔ (
            (1 ≤ text_length video.url)
            × (is_url video.url ≡ true)
            × AtMost 255 video.title
            × AtMost 4096 video.description))
  issues-none_iff known new video =
      (sign_in_issues-none_iff known, sign_up_issues-none_iff new, share_issues-none_iff video)
