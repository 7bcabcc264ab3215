-- ===== src/Notifications/Popover/Rows.antt =====
-- What the popover shows at the end of the feed.
use ytshare.Base.{ℕ, ◌<◌, String, ◌≡◌, refl, true, false, Option, some, List, [], length}
use ytshare.Videos.Types.{Video, VideoListResponse}
use ytshare.Notifications.Feed.{fetch_pages}
use ytshare.Notifications.Feed.Pages.{Listing, fetch_pages-IsComplete}
use ytshare.Notifications.Popover.{body_of, render}

module _ (upper : String → String) (parse_date : String → Option ℕ) (now : ℕ) where
  -- After more fetches than there are videos the open popover, which neither loads nor fetches,
  -- has one row for each video of the server's list, in its order, or the notice for an empty
  -- list, and no skeletons.
  pub render-fetch_pages :
      (list_videos : (limit offset : ℕ) → VideoListResponse) (all : List Video) (n : ℕ)
      → Listing list_videos all
      → length all < n
      → render upper parse_date now true false false (fetch_pages list_videos n [])
        ≡ some (record { body = body_of upper parse_date now false all; more = 0 })
  unfolding render
  render-fetch_pages list_videos all n listing many =
      rw (fetch_pages-IsComplete list_videos all listing n many).items refl
