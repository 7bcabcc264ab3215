-- ===== src/Notifications/Popover.antt =====
-- NotificationsPopover.tsx: what closes it, when it fetches, and what it shows. The class names and
-- the translated texts are left out.
pub mod Rows
use ytshare.Base.{
  ℕ, suc, String, Bool, true, false, not, ◌&&◌, Option, none, some, List, [], ◌∷◌, map,
  if◌then◌else◌, ◌==◌,
}
use ytshare.Shared.Initial.{initial}
use ytshare.Shared.RelativeTime.{Ago, format_relative_time}
use ytshare.Videos.Types.{Video, VideoListResponse}
use ytshare.Notifications.Feed.{flat_items}

-- `onDocClick`: whether it calls `onClose`, for a press inside the popover, or the anchor.
abbrev pub on_doc_click : (in_popover in_anchor : Bool) → Bool
on_doc_click in_popover in_anchor =
    if in_popover then false else (if in_anchor then false else true)

-- `onKey`, likewise.
abbrev pub on_key : String → Bool
on_key key = key == "Escape"

-- The callback of the observer: how often it calls `fetchNextPage`, by `isIntersecting` of the
-- entries. The flags are those of the last render.
unfoldable pub on_intersect : (has_next is_fetching : Bool) → List Bool → ℕ
on_intersect has_next is_fetching [] = 0
on_intersect has_next is_fetching (entry ∷ entries) =
    let rest = on_intersect has_next is_fetching entries in
    if entry && has_next && not is_fetching then suc rest else rest

-- One `<li>` of the list.
pub record Row : Type 0 where
  pub key : String
  pub href : String
  pub initial_letter : String
  pub name : String
  pub title : String
  pub time : Ago
  pub thumbnail : String

pub data Body : Type 0 where
  skeletons : ℕ → Body
  empty : Body
  rows : List Row → Body

-- The popover; `more` is the number of the skeletons below the list.
pub record View : Type 0 where
  pub body : Body
  pub more : ℕ

module _ (upper : String → String) (parse_date : String → Option ℕ) (now : ℕ) where
  abbrev pub row : Video → Row
  row v = record {
    key = v.id;
    href = v.url;
    initial_letter = initial upper v.shared_by.name;
    name = v.shared_by.name;
    title = v.title;
    time = format_relative_time now (parse_date v.shared_at);
    thumbnail = v.thumbnail_url;
  }

  abbrev pub body_of : Bool → List Video → Body
  body_of true items = skeletons 5
  body_of false [] = empty
  body_of false (v ∷ items) = rows (map row (v ∷ items))

  -- What it renders: nothing while it is closed.
  unfoldable pub render :
      (is_open is_loading is_fetching : Bool) → List VideoListResponse → Option View
  render is_open is_loading is_fetching pages =
      if is_open
      then some (record {
        body = body_of is_loading (flat_items pages);
        more = if is_fetching then 3 else 0;
      })
      else none
