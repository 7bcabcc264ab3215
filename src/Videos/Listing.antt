-- ===== src/Videos/Listing.antt =====
-- useVideos.ts, VideosPage.tsx, VideoList.tsx and VideoCard.tsx: the home page. Class names and
-- translated texts are left out.
use ytshare.Base.{ℕ, String, Bool, true, false, Option, none, some, get_or, List, [], ◌∷◌, map}
use ytshare.Shared.Query.{QueryKey}
use ytshare.Shared.Initial.{initial}
use ytshare.Shared.RelativeTime.{Ago, format_relative_time}
use ytshare.Videos.Types.{Video, VideoListResponse}
use ytshare.Videos.Keys.{videos_list}

-- The key of `useVideos`, and what it asks the backend for.
abbrev pub use_videos : (limit offset : Option ℕ) → QueryKey × (ℕ × ℕ)
use_videos limit offset =
    (videos_list (get_or limit 20) (get_or offset 0), (get_or limit 20, get_or offset 0))

pub record Card : Type 0 where
  pub href : String
  pub title : String
  pub thumbnail : String
  pub initial_letter : String
  pub name : String
  pub time : Ago

pub data VideoListView : Type 0 where
  skeletons : ℕ → VideoListView
  empty : VideoListView
  cards : List Card → VideoListView

module _ (upper : String → String) (parse_date : String → Option ℕ) (now : ℕ) where
  abbrev pub card : Video → Card
  card video = record {
    href = video.url;
    title = video.title;
    thumbnail = video.thumbnail_url;
    initial_letter = initial upper video.shared_by.name;
    name = video.shared_by.name;
    time = format_relative_time now (parse_date video.shared_at);
  }

  abbrev pub video_list : Bool → List Video → VideoListView
  video_list true videos = skeletons 8
  video_list false [] = empty
  video_list false (v ∷ videos) = cards (map card (v ∷ videos))

  -- `data?.items ?? []`
  abbrev pub items_of : Option VideoListResponse → List Video
  items_of none = []
  items_of (some response) = response.items

  unfoldable pub videos_page : Option VideoListResponse → Bool → VideoListView
  videos_page response is_loading = video_list is_loading (items_of response)
