-- ===== src/Navigation.antt =====
-- frontend/src/shared/components/HorizontalNav.tsx and Sidebar.tsx, with stores/ui.store.ts: the
-- bell, its badge and its popover, and the links. Class names and translated texts are left out.
pub mod Bell
pub mod Badges
use ytshare.Base.{
  ℕ, suc, ◌+◌, String, Bool, true, false, not, ◌&&◌, Option, none, some, List, [], ◌∷◌, map,
  if◌then◌else◌, ltb, ◌==◌,
}
use text.Mathlib.Text.{starts_with}
use ytshare.Shared.Initial.{initial}
use ytshare.Auth.Types.{AuthSession}
use ytshare.Videos.Types.{VideoListResponse}
use ytshare.Notifications.Popover.{on_doc_click, on_key, View, render}

-- `notifOpen` of the bar, and how often it has called `markAllSeen`.
pub record Bar : Type 0 where
  pub notif_open : Bool
  pub marked : ℕ

-- `handleBellClick`, with the unread count of the last render.
unfoldable pub handle_bell_click : ℕ → Bar → Bar
handle_bell_click unread bar =
    let next = not bar.notif_open in
    record {
      notif_open = next;
      marked = if next && ltb 0 unread then suc bar.marked else bar.marked;
    }

-- `onClose` of the popover.
abbrev pub on_close : Bar → Bar
on_close bar = record bar { notif_open = false }

-- `mousedown` on the document: the popover listens while it is open.
unfoldable pub on_mouse_down : (in_popover in_anchor : Bool) → Bar → Bar
on_mouse_down in_popover in_anchor bar =
    if bar.notif_open && on_doc_click in_popover in_anchor then on_close bar else bar

-- `keydown`, likewise.
unfoldable pub on_key_down : String → Bar → Bar
on_key_down key bar = if bar.notif_open && on_key key then on_close bar else bar

-- A click on the bell: the press is a `mousedown` on the anchor, outside the popover.
unfoldable pub click_bell : ℕ → Bar → Bar
click_bell unread bar = handle_bell_click unread (on_mouse_down false true bar)

-- The red dot on the bell.
pub data Badge : Type 0 where
  hidden : Badge
  exact : ℕ → Badge
  nine_plus : Badge

unfoldable pub badge : ℕ → Badge
badge unread = if ltb 0 unread then (if ltb 9 unread then nine_plus else exact unread) else hidden

-- The right end of the bar. The label of the badge, if that is shown, says the whole count.
pub record Member : Type 0 where
  pub bell_label : String
  pub unread_badge : Badge
  pub unread_label : Option ℕ
  pub expanded : Bool
  pub name : String
  pub initial_letter : String

pub data Actions : Type 0 where
  member : Member → Actions
  sign_in_link : Actions

unfoldable pub actions : (String → String) → Option AuthSession → ℕ → Bar → Actions
actions upper none unread bar = sign_in_link
actions upper (some session) unread bar = member (record {
  bell_label = "Notifications";
  unread_badge = badge unread;
  unread_label = if ltb 0 unread then some unread else none;
  expanded = bar.notif_open;
  name = session.user.name;
  initial_letter = initial upper session.user.name;
})

-- `toggleSidebar` on `sidebarExpanded`
abbrev pub toggle_sidebar : Bool → Bool
toggle_sidebar expanded = not expanded

-- `Item` of the side bar, and `items`.
pub record Item : Type 0 where
  pub id : String
  pub label_key : String
  pub to : String

abbrev pub items : List Item
items =
    record { id = "home"; label_key = "nav.videos"; to = "/" }
    ∷ record { id = "share"; label_key = "nav.share"; to = "/share" }
    ∷ []

unfoldable pub is_active : String → Item → Bool
is_active pathname item = if item.to == "/" then pathname == "/" else starts_with pathname item.to

-- The links with what marks them as active.
unfoldable pub links : String → List (Item × Bool)
unfolding is_active
links pathname = map (λ item. (item, is_active pathname item)) items

-- What `useNotificationsFeed` gives the popover.
pub record Feed : Type 0 where
  pub is_loading : Bool
  pub is_fetching : Bool
  pub pages : List VideoListResponse

-- The popover, which only a user's bar has.
abbrev pub popover_of :
    (String → String) → (String → Option ℕ) → ℕ → Option AuthSession → Bar → Feed → Option View
popover_of upper parse_date now none bar feed = none
popover_of upper parse_date now (some session) bar feed =
    render upper parse_date now bar.notif_open feed.is_loading feed.is_fetching feed.pages

-- The whole bar: the button that toggles the side bar, the link home, the search, which submits
-- nothing, the right end, and the popover under its bell.
pub record NavView : Type 0 where
  pub menu_label : String
  pub home : String
  pub name_key : String
  pub search_key : String
  pub voice_label : String
  pub right : Actions
  pub popover : Option View

abbrev pub horizontal_nav :
    (String → String) → (String → Option ℕ) → ℕ → Option AuthSession → ℕ → Bar → Feed → NavView
horizontal_nav upper parse_date now session unread bar feed = record {
  menu_label = "Menu";
  home = "/";
  name_key = "app.name";
  search_key = "nav.search";
  voice_label = "Voice search";
  right = actions upper session unread bar;
  popover = popover_of upper parse_date now session bar feed;
}

-- A link of the side bar as it is shown: beside its icon or below it, and marked or not.
pub record SideLink : Type 0 where
  pub to : String
  pub label_key : String
  pub beside : Bool
  pub marked : Bool

abbrev pub side_link : Bool → String → Item → SideLink
side_link expanded pathname item = record {
  to = item.to;
  label_key = item.label_key;
  beside = expanded;
  marked = is_active pathname item;
}

abbrev pub sidebar : Bool → String → List SideLink
sidebar expanded pathname = map (side_link expanded pathname) items
