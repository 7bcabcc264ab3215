-- ===== src/Forms/Views.antt =====
-- SignInForm.tsx, SignUpForm.tsx and ShareVideoForm.tsx as they are when their values have been
-- submitted. Translations are a parameter.
pub mod Marked
use ytshare.Base.{
  ℕ, String, Bool, true, false, ◌||◌, Option, none, some, List, [], ◌∷◌, if◌then◌else◌,
}
use ytshare.Auth.Types.{SignInPayload, SignUpPayload}
use ytshare.Videos.Types.{ShareVideoPayload}
use ytshare.Forms.{Issue, sign_in_issues, sign_up_issues, share_issues}
use ytshare.Forms.Fields.{
  FieldProps, FieldView, FormLibrary, FormView, Switch, rhf_input, rhf_textarea, handle_submit,
}

-- What the forms get: translations, zod's tests, the library of forms, and `isLoading`.
pub record FormContext : Type 0 where
  pub t : String → String
  pub is_email : String → Bool
  pub is_url : String → Bool
  pub lib : FormLibrary
  pub is_loading : Bool

module _ (ctx : FormContext) where
  abbrev email_props : FieldProps
  email_props = record {
    name = "email";
    type = some "email";
    auto_complete = some "email";
    label = some (ctx.t "form.email");
    description = none;
    placeholder = some (ctx.t "form.emailPlaceholder");
    rows = none;
  }

  -- That of signing in, and that of signing up, differ in what the browser may fill in.
  abbrev password_props : String → FieldProps
  password_props auto_complete = record {
    name = "password";
    type = some "password";
    auto_complete = some auto_complete;
    label = some (ctx.t "form.password");
    description = none;
    placeholder = some (ctx.t "form.passwordPlaceholder");
    rows = none;
  }

  abbrev name_props : FieldProps
  name_props = record {
    name = "name";
    type = none;
    auto_complete = some "name";
    label = some (ctx.t "form.name");
    description = none;
    placeholder = some (ctx.t "form.namePlaceholder");
    rows = none;
  }

  abbrev url_props : FieldProps
  url_props = record {
    name = "url";
    type = some "url";
    auto_complete = none;
    label = some (ctx.t "share.url");
    description = none;
    placeholder = some (ctx.t "share.urlPlaceholder");
    rows = none;
  }

  abbrev title_props : FieldProps
  title_props = record {
    name = "title";
    type = none;
    auto_complete = none;
    label = some (ctx.t "share.titleField");
    description = none;
    placeholder = some (ctx.t "share.titlePlaceholder");
    rows = none;
  }

  abbrev description_props : FieldProps
  description_props = record {
    name = "description";
    type = none;
    auto_complete = none;
    label = some (ctx.t "share.description");
    description = none;
    placeholder = some (ctx.t "share.descriptionPlaceholder");
    rows = some 4;
  }

  abbrev input : List Issue → FieldProps → Option String → FieldView
  input issues props value = rhf_input props (ctx.lib.field_state issues props.name value)

  abbrev textarea : List Issue → FieldProps → Option String → FieldView
  textarea issues props value = rhf_textarea props (ctx.lib.field_state issues props.name value)

  unfoldable pub sign_in_form : SignInPayload → FormView SignInPayload
  sign_in_form values =
      let issues : List Issue = sign_in_issues ctx.is_email ctx.is_url values in
      record {
        submitted = handle_submit ctx.lib issues values;
        fields =
            input issues email_props (some values.email)
            ∷ input issues (password_props "current-password") (some values.password)
            ∷ [];
        button = if ctx.is_loading then ctx.t "signIn.submitting" else ctx.t "signIn.submit";
        disabled = ctx.is_loading;
        switch = some (record {
          label = ctx.t "signIn.switchLabel";
          action = ctx.t "signIn.switchAction";
          to = "/signup";
        });
      }

  unfoldable pub sign_up_form : SignUpPayload → FormView SignUpPayload
  sign_up_form values =
      let issues : List Issue = sign_up_issues ctx.is_email ctx.is_url values in
      record {
        submitted = handle_submit ctx.lib issues values;
        fields =
            input issues name_props (some values.name)
            ∷ input issues email_props (some values.email)
            ∷ input issues (password_props "new-password") (some values.password)
            ∷ [];
        button = if ctx.is_loading then ctx.t "signUp.submitting" else ctx.t "signUp.submit";
        disabled = ctx.is_loading;
        switch = some (record {
          label = ctx.t "signUp.switchLabel";
          action = ctx.t "signUp.switchAction";
          to = "/signin";
        });
      }

  unfoldable pub share_video_form : ShareVideoPayload → FormView ShareVideoPayload
  share_video_form values =
      let issues : List Issue = share_issues ctx.is_email ctx.is_url values in
      record {
        submitted = handle_submit ctx.lib issues values;
        fields =
            input issues url_props (some values.url)
            ∷ input issues title_props values.title
            ∷ textarea issues description_props values.description
            ∷ [];
        button = if ctx.is_loading then ctx.t "share.submitting" else ctx.t "share.submit";
        disabled = ctx.is_loading;
        switch = none;
      }
