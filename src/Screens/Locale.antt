-- ===== src/Screens/Locale.antt =====
-- frontend/src/i18n/index.ts and frontend/src/locales: the languages, and the keys of their files.
use ytshare.Base.{String, is_some, List, [], ◌∷◌, contains, if◌then◌else◌}
use ytshare.Screens.{Namespace, common, auth, videos, Text}

-- `supportedLanguages`
pub data Language : Type 0 where
  en vi : Language

abbrev pub common_keys : List String
common_keys =
    "app.name" ∷ "app.loading" ∷ "nav.videos" ∷ "nav.share" ∷ "nav.shorts" ∷ "nav.subscriptions"
    ∷ "nav.you" ∷ "nav.create" ∷ "nav.shareVideo" ∷ "nav.search" ∷ "notifications.title"
    ∷ "notifications.empty" ∷ "notifications.loading" ∷ "notifications.loadMore"
    ∷ "notifications.sharedAgo" ∷ "actions.signIn" ∷ "actions.signOut" ∷ "actions.back"
    ∷ "error.title" ∷ "error.tryAgain" ∷ []

abbrev pub auth_keys : List String
auth_keys =
    "signIn.title" ∷ "signIn.subtitle" ∷ "signIn.submit" ∷ "signIn.submitting"
    ∷ "signIn.switchLabel" ∷ "signIn.switchAction" ∷ "signUp.title" ∷ "signUp.subtitle"
    ∷ "signUp.submit" ∷ "signUp.submitting" ∷ "signUp.switchLabel" ∷ "signUp.switchAction"
    ∷ "form.email" ∷ "form.emailPlaceholder" ∷ "form.name" ∷ "form.namePlaceholder"
    ∷ "form.password" ∷ "form.passwordPlaceholder" ∷ "validation.emailRequired"
    ∷ "validation.emailInvalid" ∷ "validation.nameRequired" ∷ "validation.passwordRequired"
    ∷ "validation.passwordMin" ∷ "toast.signedIn" ∷ "toast.signedUp" ∷ "toast.signedOut"
    ∷ "toast.invalidCredentials" ∷ "toast.emailTaken" ∷ "toast.genericError" ∷ []

abbrev pub videos_keys : List String
videos_keys =
    "list.title" ∷ "list.subtitle" ∷ "list.empty" ∷ "list.loading" ∷ "share.title"
    ∷ "share.subtitle" ∷ "share.url" ∷ "share.urlPlaceholder" ∷ "share.titleField"
    ∷ "share.titlePlaceholder" ∷ "share.description" ∷ "share.descriptionPlaceholder"
    ∷ "share.submit" ∷ "share.submitting" ∷ "card.sharedBy" ∷ "card.watch"
    ∷ "validation.urlRequired" ∷ "validation.urlInvalid" ∷ "toast.shared" ∷ "toast.invalidUrl"
    ∷ "toast.alreadyShared" ∷ "toast.genericError" ∷ "toast.newShare" ∷ "toast.sharedBy"
    ∷ "toast.dismiss" ∷ []

-- The keys of the files of both languages, which are the same.
abbrev pub keys : Language → Namespace → List String
keys en common = common_keys
keys en auth = auth_keys
keys en videos = videos_keys
keys vi common = common_keys
keys vi auth = auth_keys
keys vi videos = videos_keys

-- How a text is found: in the file, or by its default value, or not at all.
pub data Found : Type 0 where
  translated by_default missing : Found

abbrev pub look_up : Language → Text → Found
look_up language text =
    if contains (keys language text.namespace) text.key
    then translated
    else (if is_some text.default_value then by_default else missing)
