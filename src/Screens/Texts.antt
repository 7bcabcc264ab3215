-- ===== src/Screens/Texts.antt =====
-- The texts of a screen, as keys of a name space.
use ytshare.Base.{ℕ, zero, suc, String, Option, none, some, List, [], ◌∷◌, ◌++◌, map}
use ytshare.Videos.Listing.{VideoListView, skeletons, empty, cards}
use ytshare.Notifications.Popover
use ytshare.Navigation.{Actions, member, sign_in_link}
use ytshare.Forms.Fields.{FieldView, FormView, Switch}
use ytshare.Pages.{Toast, success, error}
use ytshare.Screens.{
  Namespace, common, auth, videos, Text, t, Shown, asked, literal, unread_notifications, CardPage,
  Content, listing, sign_in_card, sign_up_card, share_card, Screen, private_screen, public_screen,
  not_found_screen,
}

-- `t('card.sharedAgo', { defaultValue })` of VideoCard.tsx
abbrev pub shared_ago : Text
shared_ago = record {
  namespace = videos;
  key = "card.sharedAgo";
  default_value = some "{{time}} ago";
}

abbrev pub text_keys : Option String → List String
text_keys none = []
text_keys (some key) = key ∷ []

abbrev pub field_keys : List FieldView → List String
field_keys [] = []
field_keys (field ∷ fields) =
    text_keys field.label ++ (text_keys field.props.placeholder ++ field_keys fields)

abbrev pub switch_keys : Option Switch → List String
switch_keys none = []
switch_keys (some switch) = switch.label ∷ switch.action ∷ []

abbrev pub form_keys : {A : Type 0} → FormView A → List String
form_keys form = form.button ∷ (field_keys form.fields ++ switch_keys form.switch)

-- `t` in a name space, on a screen.
abbrev pub told_by : Namespace → String → Shown
told_by namespace key = asked (t namespace key)

abbrev pub card_texts : {A B : Type 0} → Namespace → CardPage A B → List Shown
card_texts namespace page =
    asked page.title ∷ asked page.subtitle ∷ map (told_by namespace) (form_keys page.form)

abbrev pub list_texts : VideoListView → List Shown
list_texts (skeletons n) = told_by videos "list.loading" ∷ []
list_texts empty = told_by videos "list.empty" ∷ []
list_texts (cards cs) = map (λ c. asked shared_ago) cs

abbrev pub content_texts : Content → List Shown
content_texts (listing list) = list_texts list
content_texts (sign_in_card page) = card_texts auth page
content_texts (sign_up_card page) = card_texts auth page
content_texts (share_card page) = card_texts videos page

abbrev pub unread_texts : Option ℕ → List Shown
unread_texts none = []
unread_texts (some unread) = unread_notifications unread ∷ []

abbrev pub action_texts : Actions → List Shown
action_texts (member m) =
    told_by common "nav.shareVideo"
    ∷ told_by common "actions.signOut"
    ∷ literal m.bell_label
    ∷ unread_texts m.unread_label
action_texts sign_in_link = told_by common "actions.signIn" ∷ []

abbrev pub body_texts : Popover.Body → List Shown
body_texts (Popover.skeletons n) = told_by common "notifications.loading" ∷ []
body_texts Popover.empty = told_by common "notifications.empty" ∷ []
body_texts (Popover.rows rs) = map (λ r. told_by common "notifications.sharedAgo") rs

-- The list below the rows has its label while more is fetched.
abbrev pub more_texts : ℕ → List Shown
more_texts zero = []
more_texts (suc n) = told_by common "notifications.loading" ∷ []

abbrev pub popover_texts : Option Popover.View → List Shown
popover_texts none = []
popover_texts (some view) =
    told_by common "notifications.title" ∷ (body_texts view.body ++ more_texts view.more)

-- The texts of a screen, with the labels of its bars, and without the reports of a form's fields.
-- What the data brings, such as a title, is none of them.
abbrev pub texts_of : Screen → List Shown
texts_of (private_screen nav side content) =
    literal nav.menu_label
    ∷ told_by common nav.name_key
    ∷ told_by common nav.search_key
    ∷ literal nav.voice_label
    ∷ (action_texts nav.right
        ++ (popover_texts nav.popover
            ++ (map (λ l. told_by common l.label_key) side ++ content_texts content)))
texts_of (public_screen content) = content_texts content
texts_of (not_found_screen view) =
    literal view.heading ∷ literal view.message ∷ asked view.back ∷ []

-- A toast of a page, as a text of the page's name space.
abbrev pub toast_text : Namespace → Toast → Text
toast_text namespace (success key name) = t namespace key
toast_text namespace (error key) = t namespace key
