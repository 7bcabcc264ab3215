-- ===== src/Screens/Translated.antt =====
-- Whether each text of a screen has a translation.
use ytshare.Base.{
  String, ◌≡◌, refl, Bool, true, false, ◌&&◌, inl, inr, List, [], ◌∷◌, map, All, contains,
  if◌then◌else◌, Bool-cases,
}
use ytshare.Videos.Listing.{videos_page}
use ytshare.Forms.Views.{sign_in_form, sign_up_form, share_video_form}
use ytshare.Pages.{error, Caught, has_status, sign_in_error, sign_up_error, share_error}
use ytshare.Routes.{Page, home, share, signin, signup}
use ytshare.Screens.{Namespace, auth, videos, Desk, screen_of}
use ytshare.Screens.Locale.{Language, en, keys}
use ytshare.Screens.Texts.{told_by, texts_of, toast_text}
use ytshare.Screens.Worded.{IsTold, IsWorded, told, list_texts-IsWorded, private_texts-IsWorded}

-- Several keys of a name space.
abbrev all_in : Namespace → List String → Bool
all_in namespace [] = true
all_in namespace (key ∷ rest) = contains (keys en namespace) key && all_in namespace rest

all-IsWorded :
    (language : Language) (namespace : Namespace) (ks : List String)
    → all_in namespace ks ≡ true
    → All (IsWorded language) (map (told_by namespace) ks)
all-IsWorded language namespace [] h = tt
all-IsWorded language namespace (key ∷ rest) h =
    let (first, others) = both (contains (keys en namespace) key) (all_in namespace rest) h in
    (told language namespace key first, all-IsWorded language namespace rest others)
  where
    both : (b c : Bool) → (b && c) ≡ true → (b ≡ true) × (c ≡ true)
    both true c h = (refl, h)
    both false c h = cc h

-- The texts of a page with a form: its head, its button, and the rest of the form.
card-IsWorded :
    (language : Language) (namespace : Namespace) (pending : Bool)
    (title subtitle one other : String) (ks : List String)
    → all_in namespace (title ∷ subtitle ∷ one ∷ other ∷ ks) ≡ true
    → All (IsWorded language) (
        told_by namespace title
        ∷ told_by namespace subtitle
        ∷ told_by namespace (if pending then one else other)
        ∷ map (told_by namespace) ks)
card-IsWorded language namespace true title subtitle one other ks h =
    let (a, (b, (c, (d, rest)))) =
      all-IsWorded language namespace (title ∷ subtitle ∷ one ∷ other ∷ ks) h in
    (a, (b, (c, rest)))
card-IsWorded language namespace false title subtitle one other ks h =
    let (a, (b, (c, (d, rest)))) =
      all-IsWorded language namespace (title ∷ subtitle ∷ one ∷ other ∷ ks) h in
    (a, (b, (d, rest)))

-- In both languages, whatever the stores, the queries and the forms hold, every text that the bars,
-- the popover and the page of a screen ask for, with the labels, placeholders and buttons of a form,
-- has a translation, but for the age of a video on the home page: that has none, and is shown by its
-- default value. The reports of a form's fields and the toasts are not among these texts. The only
-- other words in the code of these screens are labels of the bar, which are in English in both
-- languages: "Menu", "Voice search", "Notifications", and that of the badge, which is shown for at
-- least one notification.
pub screens-IsWorded :
    (language : Language) (desk : Desk) (page : Page)
    → All (IsWorded language) (texts_of (screen_of desk page))
unfolding screen_of videos_page sign_in_form sign_up_form share_video_form
screens-IsWorded language desk home =
    private_texts-IsWorded language desk _ _
      (list_texts-IsWorded language desk.upper desk.parse_date desk.now desk.is_loading _)
screens-IsWorded language desk share = private_texts-IsWorded language desk _ _ (
    card-IsWorded language videos desk.is_pending "share.title" "share.subtitle" "share.submitting"
      "share.submit"
      ("share.url" ∷ "share.urlPlaceholder" ∷ "share.titleField" ∷ "share.titlePlaceholder"
        ∷ "share.description" ∷ "share.descriptionPlaceholder" ∷ [])
      refl)
screens-IsWorded language desk signin =
    card-IsWorded language auth desk.is_pending "signIn.title" "signIn.subtitle" "signIn.submitting"
      "signIn.submit"
      ("form.email" ∷ "form.emailPlaceholder" ∷ "form.password" ∷ "form.passwordPlaceholder"
        ∷ "signIn.switchLabel" ∷ "signIn.switchAction" ∷ [])
      refl
screens-IsWorded language desk signup =
    card-IsWorded language auth desk.is_pending "signUp.title" "signUp.subtitle" "signUp.submitting"
      "signUp.submit"
      ("form.name" ∷ "form.namePlaceholder" ∷ "form.email" ∷ "form.emailPlaceholder"
        ∷ "form.password" ∷ "form.passwordPlaceholder" ∷ "signUp.switchLabel"
        ∷ "signUp.switchAction" ∷ [])
      refl

-- What the forms report when a submission fails has a translation, however it has failed.
pub errors-IsTold :
    (language : Language) (caught : Caught)
    → IsTold language (toast_text auth (sign_in_error caught))
      × IsTold language (toast_text auth (sign_up_error caught))
      × IsTold language (toast_text videos (share_error caught))
errors-IsTold language caught = (
  either (has_status 401 caught) auth "toast.invalidCredentials" "toast.genericError" refl,
  either (has_status 409 caught) auth "toast.emailTaken" "toast.genericError" refl,
  elim (Bool-cases (has_status 400 caught)) [
    | inl bad ↦ simp bad (told language videos "toast.invalidUrl" refl)
    | inr fine ↦
        simp fine
          (either (has_status 409 caught) videos "toast.alreadyShared" "toast.genericError" refl)
  ],
)
  where
    either :
        (b : Bool) (namespace : Namespace) (one other : String)
        → all_in namespace (one ∷ other ∷ []) ≡ true
        → IsTold language (toast_text namespace (if b then error one else error other))
    either true namespace one other h = (all-IsWorded language namespace (one ∷ other ∷ []) h).0
    either false namespace one other h = (all-IsWorded language namespace (one ∷ other ∷ []) h).1.0
