-- ===== src/Screens/Links.antt =====
-- Where the links of a screen lead.
use ytshare.Base.{
  ℕ, String, ◌≡◌, refl, ◌∙◌, ap, false, ◌⊎◌, inl, inr, Option, none, some, is_some, List, [], ◌∷◌,
  ◌++◌, map, All, All-append, Bool-cases,
}
use ytshare.Auth.Store.{AuthState}
use ytshare.Auth.Types.{AuthSession}
use ytshare.Navigation.{Actions, member, sign_in_link, actions, sidebar, Bar}
use ytshare.Forms.Fields.{Switch}
use ytshare.Forms.Views.{sign_in_form, sign_up_form, share_video_form}
use ytshare.Routes.{Page, home, share, signin, signup, path_of, shown, load}
use ytshare.Routes.Landing.{landing, load-landing, IsAllowed}
use ytshare.Screens.{
  Desk, Content, listing, sign_in_card, sign_up_card, share_card, Screen, private_screen,
  public_screen, not_found_screen, screen_of,
}

abbrev action_links : Actions → List String
action_links (member m) = "/share" ∷ []
action_links sign_in_link = "/signin" ∷ []

abbrev switch_links : Option Switch → List String
switch_links none = []
switch_links (some switch) = switch.to ∷ []

abbrev content_links : Content → List String
content_links (listing list) = []
content_links (sign_in_card page) = switch_links page.form.switch
content_links (sign_up_card page) = switch_links page.form.switch
content_links (share_card page) = switch_links page.form.switch

-- The addresses of the links of a screen within the application.
abbrev pub links_of : Screen → List String
links_of (private_screen nav side content) =
    nav.home ∷ (action_links nav.right ++ (map (λ l. l.to) side ++ content_links content))
links_of (public_screen content) = content_links content
links_of (not_found_screen view) = view.to ∷ []

-- A link leads to its own page, or, where it is that to the share form and nobody is signed in, to
-- the page of signing in.
abbrev pub IsLive : AuthState → String → Type 0
IsLive a to =
    (page : Page) × (load 2 a to ≡ shown page)
    × ((path_of page ≡ to) ⊎ ((a.is_authenticated ≡ false) × (to ≡ "/share") × (page ≡ signin)))

home-IsLive : (a : AuthState) → IsLive a "/"
home-IsLive a = (home, load-landing 0 home a, inl refl)

share-IsLive : (a : AuthState) → IsLive a "/share"
share-IsLive a = elim (Bool-cases a.is_authenticated) [
  | inl known ↦ (share, load-landing 0 share a ∙ ap (λ b. shown (landing share b)) known, inl refl)
  | inr nobody ↦ (
    signin,
    load-landing 0 share a ∙ ap (λ b. shown (landing share b)) nobody,
    inr (nobody, refl, refl),
  )
]

signin-IsLive : (a : AuthState) → a.is_authenticated ≡ false → IsLive a "/signin"
signin-IsLive a nobody =
    (signin, load-landing 0 signin a ∙ ap (λ b. shown (landing signin b)) nobody, inl refl)

signup-IsLive : (a : AuthState) → a.is_authenticated ≡ false → IsLive a "/signup"
signup-IsLive a nobody =
    (signup, load-landing 0 signup a ∙ ap (λ b. shown (landing signup b)) nobody, inl refl)

action_links-IsLive :
    (upper : String → String) (session : Option AuthSession) (unread : ℕ) (bar : Bar)
    (a : AuthState)
    → a.is_authenticated ≡ is_some session
    → All (IsLive a) (action_links (actions upper session unread bar))
unfolding actions
action_links-IsLive upper none unread bar a same = (signin-IsLive a same, tt)
action_links-IsLive upper (some session) unread bar a same = (share-IsLive a, tt)

private-IsLive :
    (desk : Desk) (page : Page) (a : AuthState)
    → a.is_authenticated ≡ is_some desk.session
    → All (IsLive a) (
        action_links (actions desk.upper desk.session desk.unread desk.bar)
        ++ (map (λ l. l.to) (sidebar desk.expanded (path_of page)) ++ []))
private-IsLive desk page a same =
    All-append (IsLive a) _ _
      (action_links-IsLive desk.upper desk.session desk.unread desk.bar a same)
      (home-IsLive a, (share-IsLive a, tt))

-- Every link of a page that is shown to who may see it leads to a page, which is its own, but for the
-- link to the share form where nobody is signed in: that leads to the page of signing in.
pub links-IsLive :
    (desk : Desk) (page : Page) (a : AuthState)
    → a.is_authenticated ≡ is_some desk.session
    → IsAllowed page a
    → All (IsLive a) (links_of (screen_of desk page))
unfolding screen_of sign_in_form sign_up_form share_video_form
links-IsLive desk home a same allowed = (home-IsLive a, private-IsLive desk home a same)
links-IsLive desk share a same allowed = (home-IsLive a, private-IsLive desk share a same)
links-IsLive desk signin a same allowed = (signup-IsLive a allowed, tt)
links-IsLive desk signup a same allowed = (signin-IsLive a allowed, tt)
