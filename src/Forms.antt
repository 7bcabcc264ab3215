-- ===== src/Forms.antt =====
-- The schemas of SignInForm.tsx, SignUpForm.tsx and ShareVideoForm.tsx under frontend/src/modules:
-- what a form refuses to submit. Zod's tests of addresses and of URLs are parameters.
pub mod Accepted
pub mod Fields
pub mod Views
use ytshare.Base.{
  ℕ, suc, ◌+◌, String, Bool, true, false, Option, none, some, List, [], ◌∷◌, ◌++◌, if◌then◌else◌,
  ltb,
}
use ytshare.Shared.Text.{text_length}
use ytshare.Auth.Types.{SignInPayload, SignUpPayload}
use ytshare.Videos.Types.{ShareVideoPayload}

-- A field, and the key of its message; zod's own message is `none`.
pub record Issue : Type 0 where
  pub field : String
  pub message : Option String

-- One check of a field: an issue where it fails.
abbrev pub check : Bool → String → Option String → List Issue
check true field message = []
check false field message = record { field = field; message = message } ∷ []

-- `min(n)` and `max(n)`
abbrev pub min_length : ℕ → String → Bool
min_length n value = if ltb (text_length value) n then false else true

abbrev pub max_length : ℕ → String → Bool
max_length n value = if ltb n (text_length value) then false else true

-- `optional()`: an absent value passes.
abbrev pub optional : (String → Bool) → Option String → Bool
optional test none = true
optional test (some value) = test value

module _ (is_email is_url : String → Bool) where
  abbrev pub email_issues : String → List Issue
  email_issues email =
      check (min_length 1 email) "email" (some "validation.emailRequired")
      ++ check (is_email email) "email" (some "validation.emailInvalid")

  abbrev pub password_issues : String → List Issue
  password_issues password =
      check (min_length 1 password) "password" (some "validation.passwordRequired")
      ++ check (min_length 6 password) "password" (some "validation.passwordMin")

  unfoldable pub sign_in_issues : SignInPayload → List Issue
  sign_in_issues values = email_issues values.email ++ password_issues values.password

  unfoldable pub sign_up_issues : SignUpPayload → List Issue
  sign_up_issues values =
      email_issues values.email
      ++ check (min_length 1 values.name) "name" (some "validation.nameRequired")
      ++ password_issues values.password

  unfoldable pub share_issues : ShareVideoPayload → List Issue
  share_issues values =
      check (min_length 1 values.url) "url" (some "validation.urlRequired")
      ++ check (is_url values.url) "url" (some "validation.urlInvalid")
      ++ check (optional (max_length 255) values.title) "title" none
      ++ check (optional (max_length 4096) values.description) "description" none
