-- ===== src/Notifications/Feed.antt =====
-- useNotificationsFeed.ts: the infinite query behind the popover, page after page. The query
-- library calls `getNextPageParam` with the pages so far, and fetches with what it returns.
pub mod Pages
use ytshare.Base.{
  ℕ, zero, suc, ◌+◌, String, Bool, true, false, Option, none, some, is_some, List, [], ◌∷◌, ◌++◌,
  if◌then◌else◌, ltb, length, total, ◌&&◌, not,
}
use ytshare.Videos.Types.{Video, VideoListResponse}

-- PAGE_SIZE
abbrev pub page_size : ℕ
page_size = 10

-- `allPages.reduce((n, p) => n + p.items.length, 0)`
abbrev pub loaded : List VideoListResponse → ℕ
loaded pages = total (λ p. length p.items) pages

abbrev pub get_next_page_param : VideoListResponse → List VideoListResponse → Option ℕ
get_next_page_param last all = if ltb (loaded all) last.total then some (loaded all) else none

-- `data?.pages.flatMap((p) => p.items) ?? []`
abbrev pub flat_items : List VideoListResponse → List Video
flat_items [] = []
flat_items (p ∷ pages) = p.items ++ flat_items pages

abbrev last_page : VideoListResponse → List VideoListResponse → VideoListResponse
last_page p [] = p
last_page p (q ∷ pages) = last_page q pages

-- The parameter of the next fetch: `initialPageParam`, and then what `getNextPageParam` returns.
unfoldable pub next_param : List VideoListResponse → Option ℕ
next_param [] = some 0
next_param (p ∷ pages) = get_next_page_param (last_page p pages) (p ∷ pages)

module _ (list_videos : (limit offset : ℕ) → VideoListResponse) where
  abbrev pub fetched : Option ℕ → List VideoListResponse → List VideoListResponse
  fetched none pages = pages
  fetched (some offset) pages = pages ++ list_videos page_size offset ∷ []

  -- One fetch: the first page, or the next one, if there is one.
  unfoldable pub fetch_next_page : List VideoListResponse → List VideoListResponse
  fetch_next_page pages = fetched (next_param pages) pages

  unfoldable pub fetch_pages : ℕ → List VideoListResponse → List VideoListResponse
  fetch_pages zero pages = pages
  fetch_pages (suc n) pages = fetch_pages n (fetch_next_page pages)
