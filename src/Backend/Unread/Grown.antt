-- ===== src/Backend/Unread/Grown.antt =====
-- What comes to the tables behind a time, while others share and mark.
use ytshare.Base.{
  ℕ, ◌<◌, String, ◌≡◌, refl, sym, ap, ◌∙◌, Bool, true, false, Bool-cases, Option-cases, inl, inr,
  some, List, [], ◌∷◌, ◌++◌, append_assoc, append-nil, if◌then◌else◌, ◌==◌, eq_iff, All, All-append,
  arith,
}
use ytshare.Backend.Videos.{GoText}
use ytshare.Backend.Videos.Service.{
  VideoRow, Service, ShareCalls, ShareRequest, shares, lists, expires, payload_of, handle, share,
  video_of,
}
use ytshare.Backend.Videos.Service.Stored.{announced, share-IsDecided, SameRows, list-SameRows}
use ytshare.Backend.Unread.{
  Reader, find_reader, set_seen, Board, mark_seen, Call, counts, marks, serves, step, run,
}

-- Only the requests behind `t` store videos, and nobody but the others marks as seen.
abbrev pub IsLater : String → ℕ → Call → Type 0
IsLater me t (counts calls user) = Unit
IsLater me t (marks fails now user) = (user == me) ≡ false
IsLater me t (serves (shares calls req)) = t < calls.now
IsLater me t (serves (lists calls limit offset)) = Unit
IsLater me t (serves expires) = Unit

-- What has come to the tables since `t`, in front of what was there.
pub record HasGrown (me : String) (t : ℕ) (b b' : Board) (rows : List VideoRow) : Type 0 where
  pub videos : b'.service.videos ≡ rows ++ b.service.videos
  pub jobs : b'.service.jobs ≡ b.service.jobs ++ announced rows
  pub later : All (λ v. t < v.created_at) rows
  pub marker : find_reader me b'.readers ≡ find_reader me b.readers

announced-append :
    (rows rows' : List VideoRow) → announced (rows ++ rows') ≡ announced rows' ++ announced rows
announced-append [] rows' = sym (append-nil _)
announced-append (v ∷ rows) rows' =
    ap (λ l. l ++ payload_of v ∷ []) (announced-append rows rows')
    ∙ append_assoc (announced rows') (announced rows) (payload_of v ∷ [])

grown_none : (me : String) (t : ℕ) (b : Board) → HasGrown me t b b []
grown_none me t b = record {
  videos = refl;
  jobs = sym (append-nil b.service.jobs);
  later = tt;
  marker = refl;
}

-- One growth behind another.
grown_again :
    (me : String) (t : ℕ) (a b c : Board) (rows rows' : List VideoRow)
    → HasGrown me t a b rows
    → HasGrown me t b c rows'
    → HasGrown me t a c (rows' ++ rows)
grown_again me t a b c rows rows' g g' = record {
  videos = g'.videos ∙ ap (λ l. rows' ++ l) g.videos ∙ sym (append_assoc rows' rows _);
  jobs =
      g'.jobs
      ∙ ap (λ l. l ++ announced rows') g.jobs
      ∙ append_assoc a.service.jobs _ _
      ∙ ap (λ l. a.service.jobs ++ l) (sym (announced-append rows' rows));
  later = All-append _ rows' rows g'.later g.later;
  marker = g'.marker ∙ g.marker;
}

-- The mark of another reader.
pub find-set_seen_other :
    (now : ℕ) (user me : String) (readers : List Reader)
    → (user == me) ≡ false
    → find_reader me (set_seen now user readers) ≡ find_reader me readers
find-set_seen_other now user me [] other = refl
find-set_seen_other now user me (r ∷ readers) other =
    let rest = find-set_seen_other now user me readers other in
    elim (Bool-cases (r.id == user)) [
      | inl named ↦ simp (named, by_id r.id user me named other) rest
      | inr unnamed ↦ simp unnamed (ap (λ o. if r.id == me then some r else o) rest)
    ]
  where
    by_id : (id user me : String) → (id == user) ≡ true → (user == me) ≡ false → (id == me) ≡ false
    by_id id user me same other = ground (arith, eq_iff id user, eq_iff user me, eq_iff id me)

mark_seen-HasGrown :
    (me : String) (t : ℕ) (fails : Bool) (now : ℕ) (user : String) (b : Board)
    → (user == me) ≡ false
    → HasGrown me t b (mark_seen fails now user b).0 []
unfolding mark_seen
mark_seen-HasGrown me t true now user b other = grown_none me t b
mark_seen-HasGrown me t false now user b other = elim (Option-cases (find_reader user b.readers)) [
  | inl missing ↦ rw missing (grown_none me t b)
  | inr (r, found) ↦ rw found (record {
    videos = refl;
    jobs = sym (append-nil b.service.jobs);
    later = tt;
    marker = find-set_seen_other now user me b.readers other;
  })
]

share-HasGrown :
    (go : GoText) (me : String) (t : ℕ) (calls : ShareCalls) (req : ShareRequest) (b : Board)
    → t < calls.now
    → (rows : List VideoRow) × HasGrown me t b
        (record b { service = (share go calls req b.service).0 })
        rows
share-HasGrown go me t calls req b later = elim (share-IsDecided go calls req b.service) [
  | inl (e, unchanged) ↦ ([], rw unchanged (grown_none me t b))
  | inr (id, sharer, (found, new, done)) ↦ (
    video_of go calls req sharer id ∷ [],
    rw done (record { videos = refl; jobs = refl; later = (later, tt); marker = refl }),
  )
]

list-HasGrown :
    (go : GoText) (me : String) (t : ℕ) (b : Board) (s : Service)
    → SameRows go b.service s
    → HasGrown me t b (record b { service = s }) []
list-HasGrown go me t b s (videos, jobs) = record {
  videos = videos;
  jobs = jobs ∙ sym (append-nil b.service.jobs);
  later = tt;
  marker = refl;
}

step-HasGrown :
    (go : GoText) (me : String) (t : ℕ) (call : Call) (b : Board)
    → IsLater me t call
    → (rows : List VideoRow) × HasGrown me t b (step go call b) rows
unfolding step handle
step-HasGrown go me t (counts calls user) b later = ([], grown_none me t b)
step-HasGrown go me t (marks fails now user) b later =
    ([], mark_seen-HasGrown me t fails now user b later)
step-HasGrown go me t (serves (shares calls req)) b later = share-HasGrown go me t calls req b later
step-HasGrown go me t (serves (lists calls limit offset)) b later =
    ([], list-HasGrown go me t b _ (list-SameRows go calls limit offset b.service))
step-HasGrown go me t (serves expires) b later = ([], list-HasGrown go me t b _ (refl, refl))

pub run-HasGrown :
    (go : GoText) (me : String) (t : ℕ) (calls : List Call) (b : Board)
    → All (IsLater me t) calls
    → (rows : List VideoRow) × HasGrown me t b (run go calls b) rows
unfolding run
run-HasGrown go me t [] b later = ([], grown_none me t b)
run-HasGrown go me t (call ∷ calls) b (first, later) =
    let (rows, g) = step-HasGrown go me t call b first in
    let (rows', g') = run-HasGrown go me t calls (step go call b) later in
    (
      rows' ++ rows,
      grown_again me t b (step go call b) (run go calls (step go call b)) rows rows' g g',
    )
