-- ===== src/Backend/Videos/Service.antt =====
-- backend/internal/modules/videos/service.go over the tables of repository.go: sharing a video, and
-- the list with its cached first page. What the database, the cache and the users' table answer
-- beyond their content comes with each request.
pub mod Stored
pub mod Cached
use Prim.Native.String
use ytshare.Base.{
  ℕ, zero, suc, ◌+◌, String, Bool, true, false, ◌&&◌, ◌||◌, not, Option, none, some, List, [], ◌∷◌,
  ◌++◌, map, if◌then◌else◌, length, take, drop, ltb, leb, nat_eq, ◌==◌,
}
use ytshare.Notifications.Types.{VideoSharedPayload}
use ytshare.Backend.Videos.{GoText, watch_url, thumbnail_url, extract_youtube_id}

-- The columns of `users` that a video shows.
pub record User : Type 0 where
  pub id : String
  pub name : String
  pub email : String

-- A row of `videos`, with its sharer preloaded.
pub record VideoRow : Type 0 where
  pub id : String
  pub youtube_id : String
  pub url : String
  pub title : String
  pub description : String
  pub thumbnail_url : String
  pub shared_by : User
  pub created_at : ℕ

pub record ShareRequest : Type 0 where
  pub url : String
  pub title : String
  pub description : String

pub record VideoView : Type 0 where
  pub id : String
  pub youtube_id : String
  pub url : String
  pub title : String
  pub description : String
  pub thumbnail_url : String
  pub shared_at : ℕ
  pub shared_by : User

pub record ListResponse : Type 0 where
  pub items : List VideoView
  pub total : ℕ

abbrev pub to_view : VideoRow → VideoView
to_view v = record {
  id = v.id;
  youtube_id = v.youtube_id;
  url = v.url;
  title = v.title;
  description = v.description;
  thumbnail_url = v.thumbnail_url;
  shared_at = v.created_at;
  shared_by = v.shared_by;
}

-- The table, newest first; the entry `videos:list:recent` of the cache; the payloads of the jobs that
-- the worker was given, oldest first.
pub record Service : Type 0 where
  pub videos : List VideoRow
  pub cache : Option ListResponse
  pub jobs : List VideoSharedPayload

abbrev pub new_service : Service
new_service = record { videos = []; cache = none; jobs = [] }

pub data ShareError : Type 0 where
  invalid_url already_shared internal : ShareError

pub data ShareResult : Type 0 where
  refused : ShareError → ShareResult
  shared : VideoView → ShareResult

-- What the calls of `Share` give: the row of the sharer, the new id and time, and which calls fail.
pub record ShareCalls : Type 0 where
  pub sharer : Option User
  pub id : String
  pub now : ℕ
  pub find_fails : Bool
  pub create_fails : Bool
  pub delete_fails : Bool

-- Whether `FindByYouTubeID` finds a row.
abbrev pub is_shared : String → List VideoRow → Bool
is_shared id [] = false
is_shared id (v ∷ videos) = if v.youtube_id == id then true else is_shared id videos

abbrev pub payload_of : VideoRow → VideoSharedPayload
payload_of v = record {
  video_id = v.id;
  youtube_id = v.youtube_id;
  title = v.title;
  thumbnail_url = v.thumbnail_url;
  shared_by_id = v.shared_by.id;
  shared_by_name = v.shared_by.name;
}

abbrev title_or : String → String → String
title_or title id = if title == "" then String.◌++◌ "YouTube video " id else title

module _ (go : GoText) where
  abbrev pub video_of : ShareCalls → ShareRequest → User → String → VideoRow
  video_of calls req sharer id = record {
    id = calls.id;
    youtube_id = id;
    url = watch_url id;
    title = title_or (go.trim_space req.title) id;
    description = go.trim_space req.description;
    thumbnail_url = thumbnail_url id;
    shared_by = sharer;
    created_at = calls.now;
  }

  -- `Create`, the invalidation of the list, and the job. The list is ordered by `created_at`, newest
  -- first: the new row stands first, as the database's clock does not go back between two rows.
  abbrev store : ShareCalls → VideoRow → Service → Service × ShareResult
  store calls v s = if calls.create_fails then (s, refused internal) else (
    record s {
      videos = v ∷ s.videos;
      cache = if calls.delete_fails then s.cache else none;
      jobs = s.jobs ++ payload_of v ∷ [];
    },
    shared (to_view v),
  )

  abbrev share_by :
      Option User → ShareCalls → ShareRequest → String → Service → Service × ShareResult
  share_by none calls req id s = (s, refused internal)
  share_by (some sharer) calls req id s = store calls (video_of calls req sharer id) s

  abbrev share_id : Option String → ShareCalls → ShareRequest → Service → Service × ShareResult
  share_id none calls req s = (s, refused invalid_url)
  share_id (some id) calls req s =
      if calls.find_fails
      then (s, refused internal)
      else (if is_shared id s.videos
          then (s, refused already_shared)
          else share_by calls.sharer calls req id s)

  -- `Share`
  unfoldable pub share : ShareCalls → ShareRequest → Service → Service × ShareResult
  share calls req s = share_id (extract_youtube_id go req.url) calls req s

-- An `int` of Go: the limit and the offset of a request may be negative.
pub data ℤ : Type 0 where
  pos negsuc : ℕ → ℤ

-- The limit and the offset that `List` of the repository uses.
abbrev pub effective_limit : ℤ → ℕ
effective_limit (pos n) = if nat_eq n 0 || ltb 100 n then 20 else n
effective_limit (negsuc n) = 20

abbrev pub effective_offset : ℤ → ℕ
effective_offset (pos n) = n
effective_offset (negsuc n) = 0

-- `offset == 0 && limit <= 20`
abbrev pub is_first_page : ℤ → ℤ → Bool
is_first_page (pos limit) (pos offset) = nat_eq offset 0 && leb limit 20
is_first_page (negsuc limit) (pos offset) = nat_eq offset 0
is_first_page limit (negsuc offset) = false

-- The answer from the table.
abbrev pub page : ℤ → ℤ → List VideoRow → ListResponse
page limit offset videos = record {
  items = map to_view (take (effective_limit limit) (drop (effective_offset offset) videos));
  total = length videos;
}

-- Which calls of `List` fail. A miss of the cache is no failure, but has the same effect.
pub record ListCalls : Type 0 where
  pub get_fails : Bool
  pub list_fails : Bool
  pub set_fails : Bool

abbrev fetch : ListCalls → ℤ → ℤ → Service → Service × Option ListResponse
fetch calls limit offset s = if calls.list_fails then (s, none) else (
  record s {
    cache =
        if is_first_page limit offset && not calls.set_fails
        then some (page limit offset s.videos)
        else s.cache;
  },
  some (page limit offset s.videos),
)

abbrev cached_or_fetch :
    Option ListResponse → ListCalls → ℤ → ℤ → Service → Service × Option ListResponse
cached_or_fetch none calls limit offset s = fetch calls limit offset s
cached_or_fetch (some cached) calls limit offset s = (s, some cached)

-- `List`
unfoldable pub list : ListCalls → ℤ → ℤ → Service → Service × Option ListResponse
list calls limit offset s =
    cached_or_fetch (if is_first_page limit offset && not calls.get_fails then s.cache else none)
      calls limit offset s

-- What happens to the service: a request, or the end of the cached entry's time.
pub data Request : Type 0 where
  shares : (calls : ShareCalls) → (req : ShareRequest) → Request
  lists : (calls : ListCalls) → (limit offset : ℤ) → Request
  expires : Request

pub data Answer : Type 0 where
  share_answer : ShareResult → Answer
  list_answer : Option ListResponse → Answer
  no_answer : Answer

module _ (go : GoText) where
  unfoldable pub handle : Request → Service → Service × Answer
  unfolding share list
  handle (shares calls req) s = let (s', result) = share go calls req s in (s', share_answer result)
  handle (lists calls limit offset) s =
      let (s', response) = list calls limit offset s in (s', list_answer response)
  handle expires s = (record s { cache = none }, no_answer)

  unfoldable pub serve : List Request → Service → Service
  unfolding handle
  serve [] s = s
  serve (request ∷ requests) s = serve requests (handle request s).0

  -- The answers to a sequence of requests.
  unfoldable pub answers : List Request → Service → List Answer
  unfolding handle
  answers [] s = []
  answers (request ∷ requests) s = (handle request s).1 ∷ answers requests (handle request s).0
