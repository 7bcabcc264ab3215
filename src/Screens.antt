-- ===== src/Screens.antt =====
-- The screens: the layouts _private.tsx and _public.tsx with the pages in them, and the components of
-- frontend/src/routes/-components and frontend/src/shared/components that stand in for a page. A
-- translated text is its key in a name space; class names are left out.
pub mod Locale
pub mod Texts
pub mod Worded
pub mod Translated
pub mod Links
use ytshare.Base.{
  ℕ, String, Bool, true, false, Option, none, some, get_or, List, [], ◌∷◌, ◌++◌, map, ◌==◌,
}
use ytshare.Auth.Types.{AuthSession, SignInPayload, SignUpPayload}
use ytshare.Auth.Session.{SessionCodec}
use ytshare.Auth.Services.{ServerAuthResponse}
use ytshare.Videos.Types.{Video, ShareVideoPayload, VideoListResponse}
use ytshare.Videos.Listing.{VideoListView, videos_page}
use ytshare.Videos.Listing
use ytshare.Navigation.{
  Bar, Feed, NavView, Actions, member, sign_in_link, horizontal_nav, SideLink, sidebar,
}
use ytshare.Forms.Fields.{FieldView, FormLibrary, FormView, Switch}
use ytshare.Forms.Views.{FormContext, sign_in_form, sign_up_form, share_video_form}
use ytshare.Pages.{Result, Browser, submit_sign_in, submit_sign_up, submit_share}
use ytshare.Routes.{Page, home, share, signin, signup, path_of, Loaded, shown, not_found, lost}

-- `namespaces` of frontend/src/i18n/index.ts, whose first is `defaultNamespace`.
pub data Namespace : Type 0 where
  common auth videos : Namespace

-- `t(key)` in a name space, or with a `defaultValue`.
pub record Text : Type 0 where
  pub namespace : Namespace
  pub key : String
  pub default_value : Option String

abbrev pub t : Namespace → String → Text
t namespace key = record { namespace = namespace; key = key; default_value = none }

-- What a screen shows in words: a text that it asks `t` for, one that stands in its code, or the label
-- of the badge, `${unreadCount} unread notifications`.
pub data Shown : Type 0 where
  asked : Text → Shown
  literal : String → Shown
  unread_notifications : ℕ → Shown

-- A page with a form in a card. The form's own texts are keys of the same name space.
pub record CardPage (A B : Type 0) : Type 0 where
  pub title : Text
  pub subtitle : Text
  pub form : FormView A
  pub on_submit : Result B → Browser → Browser

pub data Content : Type 0 where
  listing : VideoListView → Content
  sign_in_card : CardPage SignInPayload ServerAuthResponse → Content
  sign_up_card : CardPage SignUpPayload ServerAuthResponse → Content
  share_card : CardPage ShareVideoPayload Video → Content

-- NotFound.tsx: its texts are not translated, but for that of its link.
pub record NotFoundView : Type 0 where
  pub heading : String
  pub message : String
  pub back : Text
  pub to : String

pub data Screen : Type 0 where
  private_screen : NavView → List SideLink → Content → Screen
  public_screen : Content → Screen
  not_found_screen : NotFoundView → Screen

-- What the components read: the stores, the queries and the values of the forms, and what the
-- libraries do.
pub record Desk : Type 0 where
  pub codec : SessionCodec
  pub upper : String → String
  pub parse_date : String → Option ℕ
  pub now : ℕ
  pub session : Option AuthSession
  pub unread : ℕ
  pub bar : Bar
  pub feed : Feed
  pub expanded : Bool
  pub listed : Option VideoListResponse
  pub is_loading : Bool
  pub is_email : String → Bool
  pub is_url : String → Bool
  pub lib : FormLibrary
  pub is_pending : Bool
  pub sign_in_values : SignInPayload
  pub sign_up_values : SignUpPayload
  pub share_values : ShareVideoPayload

module _ (desk : Desk) where
  abbrev context : FormContext
  context = record {
    t = λ key. key;
    is_email = desk.is_email;
    is_url = desk.is_url;
    lib = desk.lib;
    is_loading = desk.is_pending;
  }

  -- SignInPage.tsx
  abbrev pub sign_in_page : CardPage SignInPayload ServerAuthResponse
  sign_in_page = record {
    title = t auth "signIn.title";
    subtitle = t auth "signIn.subtitle";
    form = sign_in_form context desk.sign_in_values;
    on_submit = submit_sign_in desk.codec;
  }

  -- SignUpPage.tsx
  abbrev pub sign_up_page : CardPage SignUpPayload ServerAuthResponse
  sign_up_page = record {
    title = t auth "signUp.title";
    subtitle = t auth "signUp.subtitle";
    form = sign_up_form context desk.sign_up_values;
    on_submit = submit_sign_up desk.codec;
  }

  -- ShareVideoPage.tsx
  abbrev pub share_video_page : CardPage ShareVideoPayload Video
  share_video_page = record {
    title = t videos "share.title";
    subtitle = t videos "share.subtitle";
    form = share_video_form context desk.share_values;
    on_submit = submit_share;
  }

  -- PrivateLayout: the bars around the page.
  abbrev private_layout : Page → Content → Screen
  private_layout page content =
      private_screen
        (horizontal_nav desk.upper desk.parse_date desk.now desk.session desk.unread desk.bar
          desk.feed)
        (sidebar desk.expanded (path_of page)) content

  -- The component of a page, in its layout.
  unfoldable pub screen_of : Page → Screen
  unfolding videos_page sign_in_form sign_up_form share_video_form
  screen_of home =
      private_layout home
        (listing (videos_page desk.upper desk.parse_date desk.now desk.listed desk.is_loading))
  screen_of share = private_layout share (share_card share_video_page)
  screen_of signin = public_screen (sign_in_card sign_in_page)
  screen_of signup = public_screen (sign_up_card sign_up_page)

abbrev pub not_found_view : NotFoundView
not_found_view = record {
  heading = "404";
  message = "Page not found.";
  back = t common "actions.back";
  to = "/";
}

-- The root route: its outlet, or `notFoundComponent`.
abbrev pub root : Desk → Loaded → Option Screen
root desk (shown page) = some (screen_of desk page)
root desk not_found = some (not_found_screen not_found_view)
root desk lost = none

-- RouteErrorFallback.tsx and ErrorFallback.tsx: an Error shows its message.
pub record FallbackView : Type 0 where
  pub title : String
  pub message : String
  pub action : String

abbrev pub route_error_fallback : (String → String) → Option String → FallbackView
route_error_fallback t message = record {
  title = t "error.title";
  message = get_or message "Unexpected error";
  action = t "error.tryAgain";
}

abbrev pub error_fallback : Option String → FallbackView
error_fallback message = record {
  title = "Something went wrong";
  message = get_or message "An unexpected error occurred.";
  action = "Try again";
}

-- The application: the error boundary around the screen, the toaster, and the tools of development.
pub record AppView : Type 0 where
  pub screen : Option Screen
  pub toaster_position : String
  pub router_devtools : Bool
  pub query_devtools : Bool

pub data Shell : Type 0 where
  broken : FallbackView → Shell
  running : AppView → Shell

-- `App`; an error that a component has thrown comes with its message, if it is an Error.
abbrev pub app : (dev : Bool) → Option (Option String) → Desk → Loaded → Shell
app dev (some message) desk loaded = broken (error_fallback message)
app dev none desk loaded = running (record {
  screen = root desk loaded;
  toaster_position = "top-right";
  router_devtools = dev;
  query_devtools = dev;
})
