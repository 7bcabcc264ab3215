-- ===== src/Forms/Fields.antt =====
-- The fields of frontend/src/shared/components/Form: RHFInput.tsx, RHFTextarea.tsx and
-- RHFFormProvider.tsx. What react-hook-form makes of the issues of a schema is a parameter.
use ytshare.Base.{
  ℕ, String, ◌≡◌, Bool, true, false, Option, none, some, get_or, List, [], ◌∷◌, if◌then◌else◌, ◌==◌,
}
use ytshare.Forms.{Issue}

-- The properties of a field. Only a text area has rows.
pub record FieldProps : Type 0 where
  pub name : String
  pub type : Option String
  pub auto_complete : Option String
  pub label : Option String
  pub description : Option String
  pub placeholder : Option String
  pub rows : Option ℕ

-- What `Controller` gives to `render`.
pub record FieldState : Type 0 where
  pub value : Option String
  pub invalid : Bool
  pub message : Option String

pub record FieldView : Type 0 where
  pub id : String
  pub label : Option String
  pub in_danger : Bool
  pub aria_invalid : Option Bool
  pub value : Option String
  pub props : FieldProps
  pub description : Option String
  pub error : Option String

-- A text that is rendered unless it is empty.
abbrev shown : Option String → Option String
shown none = none
shown (some text) = if text == "" then none else some text

-- `invalid || undefined`
abbrev or_undefined : Bool → Option Bool
or_undefined true = some true
or_undefined false = none

abbrev pub rhf_input : FieldProps → FieldState → FieldView
rhf_input props state = record {
  id = props.name;
  label = shown props.label;
  in_danger = state.invalid;
  aria_invalid = or_undefined state.invalid;
  value = some (get_or state.value "");
  props = props;
  description = shown props.description;
  error = shown state.message;
}

abbrev pub rhf_textarea : FieldProps → FieldState → FieldView
rhf_textarea props state = record {
  id = props.name;
  label = shown props.label;
  in_danger = state.invalid;
  aria_invalid = or_undefined state.invalid;
  value = state.value;
  props = props;
  description = none;
  error = shown state.message;
}

-- react-hook-form: the state of a field, by the issues of the last submission, and whether
-- `handleSubmit` calls its callback.
pub record FormLibrary : Type 0 where
  pub field_state : List Issue → String → Option String → FieldState
  pub submits : List Issue → Bool

abbrev pub is_reported : String → List Issue → Bool
is_reported name [] = false
is_reported name (issue ∷ issues) = if issue.field == name then true else is_reported name issues

abbrev pub is_none : List Issue → Bool
is_none [] = true
is_none (issue ∷ issues) = false

-- A field is invalid if the schema reports it, and values without issues are submitted.
pub record FormLibraryLaws (lib : FormLibrary) : Type 0 where
  pub invalid_iff :
      (issues : List Issue) (name : String) (value : Option String)
      → (lib.field_state issues name value).invalid ≡ is_reported name issues
  pub submits_iff : (issues : List Issue) → lib.submits issues ≡ is_none issues

-- The link below a form: the text before it, its own, and where it leads.
pub record Switch : Type 0 where
  pub label : String
  pub action : String
  pub to : String

-- A form at the end of a submission: its fields, what `onSubmit` was called with, and its button.
pub record FormView {ℓ} (A : Type ℓ) : Type ℓ where
  pub submitted : Option A
  pub fields : List FieldView
  pub button : String
  pub disabled : Bool
  pub switch : Option Switch

-- `handleSubmit(onSubmit)`
abbrev pub handle_submit {ℓ} : {A : Type ℓ} → FormLibrary → List Issue → A → Option A
handle_submit lib issues values = if lib.submits issues then some values else none
