-- ===== src/Forms/Views/Marked.antt =====
-- The fields that a form marks, against what it submits.
use ytshare.Base.{
  String, ◌≡◌, refl, Bool, true, false, ◌||◌, not, Option, none, some, List, [], ◌∷◌, ◌++◌,
  if◌then◌else◌, ◌==◌, All, All-append, arith,
}
use ytshare.Auth.Types.{SignInPayload, SignUpPayload}
use ytshare.Videos.Types.{ShareVideoPayload}
use ytshare.Forms.{
  Issue, check, min_length, max_length, optional, email_issues, password_issues, sign_in_issues,
  sign_up_issues, share_issues,
}
use ytshare.Forms.Fields.{FieldView, FormLibraryLaws, FormView, is_reported, is_none, handle_submit}
use ytshare.Forms.Views.{FormContext, sign_in_form, sign_up_form, share_video_form}

-- Whether a field is marked as one to correct.
abbrev pub any_marked : List FieldView → Bool
any_marked [] = false
any_marked (field ∷ fields) = field.in_danger || any_marked fields

-- Whether the schema reports one of the names.
abbrev any_reported : List String → List Issue → Bool
any_reported [] issues = false
any_reported (name ∷ names) issues = is_reported name issues || any_reported names issues

abbrev is_among : String → List String → Bool
is_among name [] = false
is_among name (other ∷ names) = name == other || is_among name names

abbrev IsOf : List String → Issue → Type 0
IsOf names issue = is_among issue.field names ≡ true

any_reported-nothing : (names : List String) → any_reported names [] ≡ false
any_reported-nothing [] = refl
any_reported-nothing (name ∷ names) = any_reported-nothing names

any_reported-something :
    (names : List String) (issue : Issue) (issues : List Issue)
    → IsOf names issue
    → any_reported names (issue ∷ issues) ≡ true
any_reported-something [] issue issues h = cc
any_reported-something (name ∷ names) issue issues h =
    ground (arith, any_reported-something names issue issues)

-- Where the form has all the fields that are reported, it marks one unless there is no issue.
any_reported_lem :
    (names : List String) (issues : List Issue)
    → All (IsOf names) issues
    → any_reported names issues ≡ not (is_none issues)
any_reported_lem names [] h = any_reported-nothing names
any_reported_lem names (issue ∷ issues) (h, _) = any_reported-something names issue issues h

check-IsOf :
    (names : List String) (ok : Bool) (field : String) (message : Option String)
    → is_among field names ≡ true
    → All (IsOf names) (check ok field message)
check-IsOf names true field message h = tt
check-IsOf names false field message h = (h, tt)

-- What a form with such fields submits.
abbrev pub IsMarked {ℓ} : {A : Type ℓ} → A → FormView A → Type ℓ
IsMarked values form = form.submitted ≡ (if any_marked form.fields then none else some values)

by_none {ℓ} :
    {A : Type ℓ} (b : Bool) (values : A)
    → (if b then some values else none) ≡ (if not b then none else some values)
by_none true values = refl
by_none false values = refl

abbrev sign_in_names : List String
sign_in_names = "email" ∷ "password" ∷ []

abbrev sign_up_names : List String
sign_up_names = "name" ∷ "email" ∷ "password" ∷ []

abbrev share_names : List String
share_names = "url" ∷ "title" ∷ "description" ∷ []

module _ (is_email is_url : String → Bool) where
  two-IsOf :
      (names : List String) (field : String) (a b : Bool) (m n : Option String)
      → is_among field names ≡ true
      → All (IsOf names) (check a field m ++ check b field n)
  two-IsOf names field a b m n h =
      All-append (IsOf names) (check a field m) (check b field n) (check-IsOf names a field m h)
        (check-IsOf names b field n h)

  email_issues-IsOf :
      (names : List String) (value : String)
      → is_among "email" names ≡ true
      → All (IsOf names) (email_issues is_email is_url value)
  email_issues-IsOf names value h =
      two-IsOf names "email" (min_length 1 value) (is_email value) (some "validation.emailRequired")
        (some "validation.emailInvalid") h

  password_issues-IsOf :
      (names : List String) (value : String)
      → is_among "password" names ≡ true
      → All (IsOf names) (password_issues is_email is_url value)
  password_issues-IsOf names value h =
      two-IsOf names "password" (min_length 1 value) (min_length 6 value)
        (some "validation.passwordRequired") (some "validation.passwordMin") h

  sign_in_issues-IsOf :
      (values : SignInPayload) → All (IsOf sign_in_names) (sign_in_issues is_email is_url values)
  unfolding sign_in_issues
  sign_in_issues-IsOf values =
      All-append (IsOf sign_in_names) (email_issues is_email is_url values.email)
        (password_issues is_email is_url values.password)
        (email_issues-IsOf sign_in_names values.email refl)
        (password_issues-IsOf sign_in_names values.password refl)

  sign_up_issues-IsOf :
      (values : SignUpPayload) → All (IsOf sign_up_names) (sign_up_issues is_email is_url values)
  unfolding sign_up_issues
  sign_up_issues-IsOf values =
      let name_issues : List Issue =
        check (min_length 1 values.name) "name" (some "validation.nameRequired") in
      All-append (IsOf sign_up_names) (email_issues is_email is_url values.email ++ name_issues)
        (password_issues is_email is_url values.password)
        (All-append (IsOf sign_up_names) (email_issues is_email is_url values.email) name_issues
          (email_issues-IsOf sign_up_names values.email refl)
          (check-IsOf sign_up_names (min_length 1 values.name) "name"
            (some "validation.nameRequired") refl))
        (password_issues-IsOf sign_up_names values.password refl)

  share_issues-IsOf :
      (values : ShareVideoPayload) → All (IsOf share_names) (share_issues is_email is_url values)
  unfolding share_issues
  share_issues-IsOf values =
      let url_issues : List Issue =
        check (min_length 1 values.url) "url" (some "validation.urlRequired")
        ++ check (is_url values.url) "url" (some "validation.urlInvalid") in
      let title_issues : List Issue = check (optional (max_length 255) values.title) "title" none in
      All-append (IsOf share_names) (url_issues ++ title_issues)
        (check (optional (max_length 4096) values.description) "description" none)
        (All-append (IsOf share_names) url_issues title_issues
          (two-IsOf share_names "url" (min_length 1 values.url) (is_url values.url)
            (some "validation.urlRequired") (some "validation.urlInvalid") refl)
          (check-IsOf share_names (optional (max_length 255) values.title) "title" none refl))
        (check-IsOf share_names (optional (max_length 4096) values.description) "description" none
          refl)

module _ (ctx : FormContext) (laws : FormLibraryLaws ctx.lib) where
  marked_if_not_submitted {ℓ} :
      {A : Type ℓ} (names : List String) (issues : List Issue) (values : A)
      → All (IsOf names) issues
      → handle_submit ctx.lib issues values
        ≡ (if any_reported names issues then none else some values)
  marked_if_not_submitted names issues values h =
      rw (laws.submits_iff issues, any_reported_lem names issues h)
        (by_none (is_none issues) values)

  -- Submitting any of the three forms calls `onSubmit` with its values exactly if no field is marked:
  -- whatever keeps a form from being submitted is shown at one of its fields. That is for a library of
  -- forms that marks the fields which the schema reports, and submits values without issues.
  pub forms-IsMarked :
      (known : SignInPayload) (new : SignUpPayload) (video : ShareVideoPayload)
      → IsMarked known (sign_in_form ctx known)
        × IsMarked new (sign_up_form ctx new)
        × IsMarked video (share_video_form ctx video)
  unfolding sign_in_form sign_up_form share_video_form
  forms-IsMarked known new video = (
    simp (laws.invalid_iff (sign_in_issues ctx.is_email ctx.is_url known)) (
        marked_if_not_submitted sign_in_names _ known
          (sign_in_issues-IsOf ctx.is_email ctx.is_url known)),
    simp (laws.invalid_iff (sign_up_issues ctx.is_email ctx.is_url new)) (
        marked_if_not_submitted sign_up_names _ new
          (sign_up_issues-IsOf ctx.is_email ctx.is_url new)),
    simp (laws.invalid_iff (share_issues ctx.is_email ctx.is_url video)) (
        marked_if_not_submitted share_names _ video
          (share_issues-IsOf ctx.is_email ctx.is_url video)),
  )
