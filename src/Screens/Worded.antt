-- ===== src/Screens/Worded.antt =====
-- Whether a language has the words of the bars, the popover and the list of videos.
use ytshare.Base.{
  ℕ, String, ◌≡◌, refl, Bool, true, false, ◌⊎◌, inl, inr, Option, none, some, zero, suc, ltb, List,
  [], ◌∷◌, ◌++◌, map, All, All-append, contains, if◌then◌else◌, Bool-cases,
}
use ytshare.Auth.Types.{AuthSession}
use ytshare.Videos.Types.{Video}
use ytshare.Videos.Listing
use ytshare.Videos.Listing.{VideoListView, skeletons, empty, cards, videos_page, video_list, card}
use ytshare.Notifications.Popover
use ytshare.Navigation.{actions, Bar}
use ytshare.Screens.{
  Namespace, common, auth, videos, Text, t, Shown, asked, literal, unread_notifications, Desk,
}
use ytshare.Screens.Locale.{Language, en, vi, keys, translated, by_default, look_up}
use ytshare.Screens.Texts.{
  shared_ago, told_by, list_texts, unread_texts, action_texts, body_texts, more_texts,
  popover_texts,
}

-- A text has a translation, or is that of the age of a video, which has its default.
abbrev pub IsTold : Language → Text → Type 0
IsTold language text =
    (look_up language text ≡ translated)
    ⊎ ((text ≡ shared_ago) × (look_up language text ≡ by_default))

-- The labels of the bar that stand in its code, in English.
abbrev pub bar_labels : List String
bar_labels = "Menu" ∷ "Voice search" ∷ "Notifications" ∷ []

-- Whether a language has what a screen shows: a text that is told, one of the labels of the bar, or
-- the label of the badge, for at least one notification.
abbrev pub IsWorded : Language → Shown → Type 0
IsWorded language (asked text) = IsTold language text
IsWorded language (literal label) = contains bar_labels label ≡ true
IsWorded language (unread_notifications unread) = ltb 0 unread ≡ true

pub told :
    (language : Language) (namespace : Namespace) (key : String)
    → contains (keys en namespace) key ≡ true
    → IsTold language (t namespace key)
told language namespace key h = inl (found language namespace h)
  where
    found :
        (language : Language) (namespace : Namespace)
        → contains (keys en namespace) key ≡ true
        → look_up language (t namespace key) ≡ translated
    found en namespace h = rw h refl
    found vi common h = rw h refl
    found vi auth h = rw h refl
    found vi videos h = rw h refl

unread_texts-IsWorded :
    (language : Language) (unread : ℕ)
    → All (IsWorded language) (unread_texts (if ltb 0 unread then some unread else none))
unread_texts-IsWorded language unread = elim (Bool-cases (ltb 0 unread)) [
  | inl some_unread ↦ rw some_unread (some_unread, tt)
  | inr none_unread ↦ rw none_unread tt
]

action_texts-IsWorded :
    (language : Language) (upper : String → String) (session : Option AuthSession) (unread : ℕ)
    (bar : Bar)
    → All (IsWorded language) (action_texts (actions upper session unread bar))
unfolding actions
action_texts-IsWorded language upper none unread bar =
    (told language common "actions.signIn" refl, tt)
action_texts-IsWorded language upper (some session) unread bar = (
  told language common "nav.shareVideo" refl,
  (told language common "actions.signOut" refl, (refl, unread_texts-IsWorded language unread)),
)

rows-IsWorded :
    (language : Language) (rs : List Popover.Row)
    → All (IsWorded language) (map (λ r. told_by common "notifications.sharedAgo") rs)
rows-IsWorded language [] = tt
rows-IsWorded language (r ∷ rs) =
    (told language common "notifications.sharedAgo" refl, rows-IsWorded language rs)

body_texts-IsWorded :
    (language : Language) (body : Popover.Body) → All (IsWorded language) (body_texts body)
body_texts-IsWorded language (Popover.skeletons n) =
    (told language common "notifications.loading" refl, tt)
body_texts-IsWorded language Popover.empty = (told language common "notifications.empty" refl, tt)
body_texts-IsWorded language (Popover.rows rs) = rows-IsWorded language rs

more_texts-IsWorded : (language : Language) (n : ℕ) → All (IsWorded language) (more_texts n)
more_texts-IsWorded language zero = tt
more_texts-IsWorded language (suc n) = (told language common "notifications.loading" refl, tt)

popover_texts-IsWorded :
    (language : Language) (popover : Option Popover.View)
    → All (IsWorded language) (popover_texts popover)
popover_texts-IsWorded language none = tt
popover_texts-IsWorded language (some view) = (
  told language common "notifications.title" refl,
  All-append (IsWorded language) _ _ (body_texts-IsWorded language view.body)
      (more_texts-IsWorded language view.more),
)

cards-IsWorded :
    (language : Language) (cs : List Listing.Card)
    → All (IsWorded language) (map (λ c. asked shared_ago) cs)
cards-IsWorded language [] = tt
cards-IsWorded en (c ∷ cs) = (inr (refl, refl), cards-IsWorded en cs)
cards-IsWorded vi (c ∷ cs) = (inr (refl, refl), cards-IsWorded vi cs)

pub list_texts-IsWorded :
    (language : Language) (upper : String → String) (parse_date : String → Option ℕ) (now : ℕ)
    (is_loading : Bool) (items : List Video)
    → All (IsWorded language) (list_texts (video_list upper parse_date now is_loading items))
list_texts-IsWorded language upper parse_date now true items =
    (told language videos "list.loading" refl, tt)
list_texts-IsWorded language upper parse_date now false [] =
    (told language videos "list.empty" refl, tt)
list_texts-IsWorded language upper parse_date now false (v ∷ items) =
    cards-IsWorded language (map (card upper parse_date now) (v ∷ items))

pub private_texts-IsWorded :
    (language : Language) (desk : Desk) (popover : Option Popover.View) (content : List Shown)
    → All (IsWorded language) content
    → All (IsWorded language) (
        literal "Menu"
        ∷ told_by common "app.name"
        ∷ told_by common "nav.search"
        ∷ literal "Voice search"
        ∷ (action_texts (actions desk.upper desk.session desk.unread desk.bar)
            ++ (popover_texts popover
                ++ (told_by common "nav.videos" ∷ told_by common "nav.share" ∷ content))))
private_texts-IsWorded language desk popover content h = (
  refl,
  (
    told language common "app.name" refl,
    (
      told language common "nav.search" refl,
      (
        refl,
        All-append (IsWorded language) _ _
            (action_texts-IsWorded language desk.upper desk.session desk.unread desk.bar)
            (All-append (IsWorded language) _ _ (popover_texts-IsWorded language popover)
              (told language common "nav.videos" refl, (told language common "nav.share" refl, h))),
      ),
    ),
  ),
)
