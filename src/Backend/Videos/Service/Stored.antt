-- ===== src/Backend/Videos/Service/Stored.antt =====
-- What the table of videos holds, and what the worker is given.
use mathlib.Core.Path.{subst}
use ytshare.Base.{
  String, ◌≡◌, refl, sym, ap, ◌∙◌, Bool, true, false, Bool-cases, ◌⊎◌, inl, inr, Option, none, some,
  List, [], ◌∷◌, ◌++◌, if◌then◌else◌, ◌==◌, eq_refl, All,
}
use ytshare.Notifications.Types.{VideoSharedPayload}
use ytshare.Backend.Videos.{GoText, is_id, watch_url, extract_youtube_id}
use ytshare.Backend.Videos.Ids.{GoTextLaws, extract_youtube_id-is_id, extract_youtube_id-watch_url}
use ytshare.Backend.Videos.Service.{
  User, VideoRow, VideoView, Service, new_service, ListResponse, ListCalls, ℤ, ShareCalls,
  ShareRequest, ShareResult, ShareError, refused, shared, already_shared, invalid_url, internal,
  is_shared, payload_of, to_view, video_of, share_by, share_id, share, cached_or_fetch, list,
  Request, shares, lists, expires, handle, serve,
}

-- The payloads of the rows, oldest first.
abbrev pub announced : List VideoRow → List VideoSharedPayload
announced [] = []
announced (v ∷ videos) = announced videos ++ payload_of v ∷ []

-- No id stands twice.
abbrev pub IsDistinct : List VideoRow → Type 0
IsDistinct [] = Unit
IsDistinct (v ∷ videos) = (is_shared v.youtube_id videos ≡ false) × IsDistinct videos

-- A row is of a video, under the URL that is built for it.
abbrev pub IsCanonical : VideoRow → Type 0
IsCanonical v = (is_id v.youtube_id ≡ true) × (v.url ≡ watch_url v.youtube_id)

module _ (go : GoText) where
  abbrev pub stored : ShareCalls → VideoRow → Service → Service
  stored calls v s = record s {
    videos = v ∷ s.videos;
    cache = if calls.delete_fails then s.cache else none;
    jobs = s.jobs ++ payload_of v ∷ [];
  }

  -- A request is refused and changes nothing, or stores the video that it names, which is new.
  abbrev pub IsDecided :
      ShareCalls → ShareRequest → Option String → Service → Service × ShareResult → Type 0
  IsDecided calls req found s result =
      ((e : ShareError) × (result ≡ (s, refused e)))
      ⊎ ((id : String) × (sharer : User) × ((found ≡ some id)
            × (is_shared id s.videos ≡ false)
            × (result ≡ (
              stored calls (video_of go calls req sharer id) s,
              shared (to_view (video_of go calls req sharer id)),
            ))))

  share_by-IsDecided :
      (sharer : Option User) (calls : ShareCalls) (req : ShareRequest) (id : String) (s : Service)
      → is_shared id s.videos ≡ false
      → IsDecided calls req (some id) s (share_by go sharer calls req id s)
  share_by-IsDecided none calls req id s new = inl (internal, refl)
  share_by-IsDecided (some sharer) calls req id s new = elim (Bool-cases calls.create_fails) [
    | inl fails ↦ inl (internal, simp fails refl)
    | inr works ↦ inr (id, sharer, (refl, new, simp works refl))
  ]

  share_id-IsDecided :
      (found : Option String) (calls : ShareCalls) (req : ShareRequest) (s : Service)
      → IsDecided calls req found s (share_id go found calls req s)
  share_id-IsDecided none calls req s = inl (invalid_url, refl)
  share_id-IsDecided (some id) calls req s = elim (Bool-cases calls.find_fails) [
    | inl fails ↦ inl (internal, simp fails refl)
    | inr works ↦ elim (Bool-cases (is_shared id s.videos)) [
      | inl old ↦ inl (already_shared, simp (works, old) refl)
      | inr new ↦ simp (works, new) (share_by-IsDecided calls.sharer calls req id s new)
    ]
  ]

  pub share-IsDecided :
      (calls : ShareCalls) (req : ShareRequest) (s : Service)
      → IsDecided calls req (extract_youtube_id go req.url) s (share go calls req s)
  unfolding share
  share-IsDecided calls req s = share_id-IsDecided (extract_youtube_id go req.url) calls req s

  -- Listing changes the cache only.
  abbrev pub SameRows : Service → Service → Type 0
  SameRows s t = (t.videos ≡ s.videos) × (t.jobs ≡ s.jobs)

  cached_or_fetch-SameRows :
      (entry : Option ListResponse) (calls : ListCalls) (limit offset : ℤ) (s : Service)
      → SameRows s (cached_or_fetch entry calls limit offset s).0
  cached_or_fetch-SameRows none calls limit offset s = elim (Bool-cases calls.list_fails) [
    | inl fails ↦ rw fails (refl, refl)
    | inr works ↦ rw works (refl, refl)
  ]
  cached_or_fetch-SameRows (some cached) calls limit offset s = (refl, refl)

  pub list-SameRows :
      (calls : ListCalls) (limit offset : ℤ) (s : Service)
      → SameRows s (list calls limit offset s).0
  unfolding list
  list-SameRows calls limit offset s = cached_or_fetch-SameRows _ calls limit offset s

  abbrev IsStored : Service → Type 0
  IsStored s = All IsCanonical s.videos × IsDistinct s.videos × (s.jobs ≡ announced s.videos)

  handle-IsStored :
      (request : Request) (s : Service) → IsStored s → IsStored (handle go request s).0
  unfolding handle
  handle-IsStored (shares calls req) s (canonical, distinct, jobs) =
      elim (share-IsDecided calls req s) [
        | inl (e, unchanged) ↦ rw unchanged (canonical, distinct, jobs)
        | inr (id, sharer, (found, new, done)) ↦ rw done (
          ((extract_youtube_id-is_id go req.url id found, refl), canonical),
          (new, distinct),
          ap (λ l. l ++ payload_of (video_of go calls req sharer id) ∷ []) jobs,
        )
      ]
  handle-IsStored (lists calls limit offset) s h =
      let same = list-SameRows calls limit offset s in rw (same.0, same.1) h
  handle-IsStored expires s h = h

  serve_from-IsStored :
      (requests : List Request) (s : Service) → IsStored s → IsStored (serve go requests s)
  unfolding serve
  serve_from-IsStored [] s h = h
  serve_from-IsStored (request ∷ requests) s h =
      serve_from-IsStored requests (handle go request s).0 (handle-IsStored request s h)

  -- After any requests, every stored video has a well-formed id and the URL built from it, no id is
  -- stored twice, and the worker was given one event for each video, in order.
  pub serve-IsStored :
      (requests : List Request)
      → All IsCanonical (serve go requests new_service).videos
        × IsDistinct (serve go requests new_service).videos
        × ((serve go requests new_service).jobs ≡ announced (serve go requests new_service).videos)
  serve-IsStored requests = serve_from-IsStored requests new_service (tt, tt, refl)

  -- A stored id stays stored.
  handle-keeps :
      (id : String) (request : Request) (s : Service)
      → is_shared id s.videos ≡ true
      → is_shared id (handle go request s).0.videos ≡ true
  unfolding handle
  handle-keeps id (shares calls req) s h = elim (share-IsDecided calls req s) [
    | inl (e, unchanged) ↦ rw unchanged h
    | inr (other, sharer, (found, new, done)) ↦ rw done (if-true (other == id) h)
  ]
    where
      if-true : {b : Bool} (c : Bool) → b ≡ true → (if c then true else b) ≡ true
      if-true true e = refl
      if-true false e = e
  handle-keeps id (lists calls limit offset) s h = rw (list-SameRows calls limit offset s).0 h
  handle-keeps id expires s h = h

  serve-keeps :
      (id : String) (requests : List Request) (s : Service)
      → is_shared id s.videos ≡ true
      → is_shared id (serve go requests s).videos ≡ true
  unfolding serve
  serve-keeps id [] s h = h
  serve-keeps id (request ∷ requests) s h =
      serve-keeps id requests (handle go request s).0 (handle-keeps id request s h)

  share-stores :
      (calls : ShareCalls) (req : ShareRequest) (s : Service) (view : VideoView)
      → (share go calls req s).1 ≡ shared view
      → (is_id view.youtube_id ≡ true)
        × (view.url ≡ watch_url view.youtube_id)
        × (is_shared view.youtube_id (share go calls req s).0.videos ≡ true)
  share-stores calls req s view e = elim (share-IsDecided calls req s) [
    | inl (error, unchanged) ↦ absurd (cc (e, ap (λ r. r.1) unchanged))
    | inr (id, sharer, (found, new, done)) ↦
        let v : VideoRow = video_of go calls req sharer id in
        let shows : to_view v ≡ view = ap (shown (to_view v)) (sym (ap (λ r. r.1) done) ∙ e) in
        subst
          (λ w.
            (is_id w.youtube_id ≡ true)
            × (w.url ≡ watch_url w.youtube_id)
            × (is_shared w.youtube_id (share go calls req s).0.videos ≡ true))
          shows (extract_youtube_id-is_id go req.url id found, refl, rw (done, eq_refl id) refl)
  ]
    where
      shown : VideoView → ShareResult → VideoView
      shown default (refused e) = default
      shown default (shared w) = w

  share_id-again :
      (id : String) (calls : ShareCalls) (req : ShareRequest) (s : Service)
      → calls.find_fails ≡ false
      → is_shared id s.videos ≡ true
      → share_id go (some id) calls req s ≡ (s, refused already_shared)
  share_id-again id calls req s works old = simp (works, old) refl

  -- Once a video is shared, whoever shares the URL that was shown for it, after any other requests, is
  -- told that it is already shared, and nothing changes. The look-up in the table must not fail.
  pub share-once :
      (laws : GoTextLaws go) (calls calls' : ShareCalls) (req req' : ShareRequest) (s : Service)
      (view : VideoView) (between : List Request)
      → (share go calls req s).1 ≡ shared view
      → calls'.find_fails ≡ false
      → req'.url ≡ view.url
      → share go calls' req' (serve go between (share go calls req s).0)
        ≡ (serve go between (share go calls req s).0, refused already_shared)
  unfolding share
  share-once laws calls calls' req req' s view between e works again =
      let (genuine, url, there) = share-stores calls req s view e in
      let named : extract_youtube_id go req'.url ≡ some view.youtube_id =
        ap (extract_youtube_id go) (again ∙ url)
        ∙ extract_youtube_id-watch_url go laws view.youtube_id genuine in
      ap (λ found. share_id go found calls' req' (serve go between (share go calls req s).0)) named
      ∙ share_id-again view.youtube_id calls' req' (serve go between (share go calls req s).0) works
          (serve-keeps view.youtube_id between (share go calls req s).0 there)
