-- ===== src/Backend/Videos/Races.antt =====
-- Requests to share that are served at the same time: `Share` of service.go in its steps, between
-- which those of the others come. The unique index on youtube_id is that of the migrations.
pub mod Once
use ytshare.Base.{
  ℕ, String, Bool, true, false, ◌||◌, Option, none, some, List, [], ◌∷◌, ◌++◌, if◌then◌else◌,
  get_elem?, set_elem,
}
use ytshare.Notifications.Types.{VideoSharedPayload}
use ytshare.Backend.Videos.{GoText, extract_youtube_id}
use ytshare.Backend.Videos.Service.{
  User, VideoRow, ShareCalls, ShareRequest, is_shared, payload_of, video_of,
}

-- Where a request stands: before `Create` with the row that it has built, behind `Create`, or at its
-- end, with its error, if it has one.
pub data Stage : Type 0 where
  looked : VideoRow → Stage
  stored : VideoRow → Stage
  ended refused : Stage

-- The table, newest first, the jobs, and the requests that have come, oldest first.
pub record Site : Type 0 where
  pub videos : List VideoRow
  pub jobs : List VideoSharedPayload
  pub requests : List Stage

abbrev pub new_site : Site
new_site = record { videos = []; jobs = []; requests = [] }

module _ (go : GoText) where
  abbrev looked_up : Option User → ShareCalls → ShareRequest → String → Stage
  looked_up none calls req id = refused
  looked_up (some sharer) calls req id = looked (video_of go calls req sharer id)

  -- `Share` up to `Create`.
  abbrev begun : Option String → ShareCalls → ShareRequest → List VideoRow → Stage
  begun none calls req videos = refused
  begun (some id) calls req videos =
      if calls.find_fails || is_shared id videos
      then refused
      else looked_up calls.sharer calls req id

  unfoldable pub begin : ShareCalls → ShareRequest → Site → Site
  begin calls req s = record s {
    requests = s.requests ++ begun (extract_youtube_id go req.url) calls req s.videos ∷ [];
  }

-- `Create` of the request `i`, which fails for a second row with its id.
abbrev created : ℕ → (fails : Bool) → Option Stage → Site → Site
created i fails (some (looked v)) s =
    if fails || is_shared v.youtube_id s.videos
    then record s { requests = set_elem i refused s.requests }
    else record s { videos = v ∷ s.videos; requests = set_elem i (stored v) s.requests }
created i fails (some (stored v)) s = s
created i fails (some ended) s = s
created i fails (some refused) s = s
created i fails none s = s

unfoldable pub create : ℕ → (fails : Bool) → Site → Site
create i fails s = created i fails (get_elem? s.requests i) s

-- `Submit` of the request `i`, and its answer.
abbrev submitted : ℕ → Option Stage → Site → Site
submitted i (some (stored v)) s = record s {
  jobs = s.jobs ++ payload_of v ∷ [];
  requests = set_elem i ended s.requests;
}
submitted i (some (looked v)) s = s
submitted i (some ended) s = s
submitted i (some refused) s = s
submitted i none s = s

unfoldable pub submit : ℕ → Site → Site
submit i s = submitted i (get_elem? s.requests i) s

pub data Step : Type 0 where
  begins : (calls : ShareCalls) → (req : ShareRequest) → Step
  creates : (i : ℕ) → (fails : Bool) → Step
  submits : (i : ℕ) → Step

module _ (go : GoText) where
  unfoldable pub step : Step → Site → Site
  unfolding begin create submit
  step (begins calls req) s = begin go calls req s
  step (creates i fails) s = create i fails s
  step (submits i) s = submit i s

  unfoldable pub run : List Step → Site → Site
  unfolding step
  run [] s = s
  run (next ∷ steps) s = run steps (step next s)
