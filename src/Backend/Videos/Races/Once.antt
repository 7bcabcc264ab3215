-- ===== src/Backend/Videos/Races/Once.antt =====
-- However requests to share come between each other's steps, a video is stored once, and announced
-- once.
use ytshare.Base.{
  ℕ, ◌+◌, String, ◌≡◌, refl, Bool, true, false, ◌||◌, Bool-cases, inl, inr, Option, none, some,
  List, [], ◌∷◌, get_elem?, total, total-append, total-set_elem, arith,
}
use ytshare.Notifications.Types.{VideoSharedPayload}
use ytshare.Backend.Videos.{GoText, extract_youtube_id}
use ytshare.Backend.Videos.Service.{User, VideoRow, ShareCalls, ShareRequest, is_shared, payload_of}
use ytshare.Backend.Videos.Service.Stored.{IsDistinct}
use ytshare.Backend.Videos.Races.{
  Stage, looked, stored, ended, refused, Site, new_site, looked_up, begun, begin, created, create,
  submitted, submit, Step, begins, creates, submits, step, run,
}

-- What a request has stored, and not announced yet.
abbrev pub unannounced : (VideoSharedPayload → ℕ) → Stage → ℕ
unannounced w (looked v) = 0
unannounced w (stored v) = w (payload_of v)
unannounced w ended = 0
unannounced w refused = 0

-- No id is stored twice; and each stored video is announced, or a request is about to announce it.
pub record IsOnce (s : Site) : Type 0 where
  pub distinct : IsDistinct s.videos
  pub announced :
      (w : VideoSharedPayload → ℕ)
      → total w s.jobs + total (unannounced w) s.requests ≡ total (λ v. w (payload_of v)) s.videos

created-IsOnce :
    (i : ℕ) (fails : Bool) (stage : Option Stage) (s : Site)
    → get_elem? s.requests i ≡ stage
    → IsOnce s
    → IsOnce (created i fails stage s)
created-IsOnce i fails none s at h = h
created-IsOnce i fails (some (stored v)) s at h = h
created-IsOnce i fails (some ended) s at h = h
created-IsOnce i fails (some refused) s at h = h
created-IsOnce i fails (some (looked v)) s at h =
    elim (Bool-cases (fails || is_shared v.youtube_id s.videos)) [
      | inl taken ↦ rw taken (record {
        distinct = h.distinct;
        announced = λ w.
            let before = h.announced w in
            let same = total-set_elem (unannounced w) i refused (looked v) s.requests at in
            omega arith;
      })
      | inr free ↦ rw free (record {
        distinct = (new fails free, h.distinct);
        announced = λ w.
            let before = h.announced w in
            let more = total-set_elem (unannounced w) i (stored v) (looked v) s.requests at in
            omega arith;
      })
    ]
  where
    new : (b : Bool) {c : Bool} → (b || c) ≡ false → c ≡ false
    new true e = cc e
    new false e = e

submitted-IsOnce :
    (i : ℕ) (stage : Option Stage) (s : Site)
    → get_elem? s.requests i ≡ stage
    → IsOnce s
    → IsOnce (submitted i stage s)
submitted-IsOnce i none s at h = h
submitted-IsOnce i (some (looked v)) s at h = h
submitted-IsOnce i (some ended) s at h = h
submitted-IsOnce i (some refused) s at h = h
submitted-IsOnce i (some (stored v)) s at h = record {
  distinct = h.distinct;
  announced = λ w.
      let before = h.announced w in
      let less = total-set_elem (unannounced w) i ended (stored v) s.requests at in
      let sent = total-append w s.jobs (payload_of v ∷ []) in omega arith;
}

module _ (go : GoText) where
  looked_up-unannounced :
      (w : VideoSharedPayload → ℕ) (sharer : Option User) (calls : ShareCalls) (req : ShareRequest)
      (id : String)
      → unannounced w (looked_up go sharer calls req id) ≡ 0
  looked_up-unannounced w none calls req id = refl
  looked_up-unannounced w (some sharer) calls req id = refl

  begun-unannounced :
      (w : VideoSharedPayload → ℕ) (found : Option String) (calls : ShareCalls) (req : ShareRequest)
      (videos : List VideoRow)
      → unannounced w (begun go found calls req videos) ≡ 0
  begun-unannounced w none calls req videos = refl
  begun-unannounced w (some id) calls req videos =
      elim (Bool-cases (calls.find_fails || is_shared id videos)) [
        | inl taken ↦ rw taken refl
        | inr yes_new ↦ rw yes_new (looked_up-unannounced w calls.sharer calls req id)
      ]

  step-IsOnce : (next : Step) (s : Site) → IsOnce s → IsOnce (step go next s)
  unfolding step begin create submit
  step-IsOnce (begins calls req) s h = record {
    distinct = h.distinct;
    announced = λ w.
        let before = h.announced w in
        let found = extract_youtube_id go req.url in
        let longer =
          total-append (unannounced w) s.requests (begun go found calls req s.videos ∷ []) in
        omega (arith, begun-unannounced w found calls req s.videos, longer);
  }
  step-IsOnce (creates i fails) s h = created-IsOnce i fails (get_elem? s.requests i) s refl h
  step-IsOnce (submits i) s h = submitted-IsOnce i (get_elem? s.requests i) s refl h

  run_from-IsOnce : (steps : List Step) (s : Site) → IsOnce s → IsOnce (run go steps s)
  unfolding run
  run_from-IsOnce [] s h = h
  run_from-IsOnce (next ∷ steps) s h = run_from-IsOnce steps (step go next s) (step-IsOnce next s h)

  -- However the steps of requests to share follow each other, no video is stored twice at any time;
  -- and the jobs that were handed over, with the stored videos that a request has yet to announce,
  -- are the stored videos, each just once, whatever weights they are given.
  pub run-IsOnce : (steps : List Step) → IsOnce (run go steps new_site)
  run-IsOnce steps =
      run_from-IsOnce steps new_site (record { distinct = tt; announced = λ w. refl })
