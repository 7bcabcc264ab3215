-- ===== src/Backend/Unread/Agrees.antt =====
-- The count of the server beside the count that the client keeps from the events it is sent.
use mathlib.Core.List.{append_cancel_left}
use ytshare.Base.{
  ℕ, ◌+◌, ◌≤◌, ◌<◌, min, String, ◌≡◌, refl, sym, ap, ◌∙◌, true, false, Bool-cases, Option-cases,
  inl, inr, some, is_some, List, [], ◌∷◌, ◌++◌, map, if◌then◌else◌, ◌==◌, eq_iff, All, total,
  total-append, arith,
}
use ytshare.Notifications.Types.{VideoSharedPayload, NotificationEvent}
use ytshare.Notifications.Events.{Client, handle_all}
use ytshare.Notifications.Events.Ideal.{
  Ideal, Represents, is_news, ideal_event, ideal_all, handle_all-Represents,
}
use ytshare.Notifications.Unread.{on_seen}
use ytshare.Notifications.Unread.{unread_count as client_count}
use ytshare.Notifications.Unread.Reset.{on_seen-Represents}
use ytshare.Backend.Videos.{GoText}
use ytshare.Backend.Videos.Service.{VideoRow, payload_of}
use ytshare.Backend.Videos.Service.Stored.{announced}
use ytshare.Backend.Unread.{
  capped, Reader, find_reader, set_seen, count_shared_after, Board, CountCalls, counted, max_unread,
  unread_count, mark_seen, Call, run,
}
use ytshare.Backend.Unread.Grown.{IsLater, run-HasGrown}

-- 1 for a share of somebody else, 0 for an own one.
abbrev pub foreign : String → VideoSharedPayload → ℕ
foreign me p = if p.shared_by_id == me then 0 else 1

-- Each event is new when it comes, behind the accepted ids.
abbrev pub AreNews : List String → List NotificationEvent → Type 0
AreNews h [] = Unit
AreNews h (evt ∷ events) = (is_news h evt ≡ true) × AreNews (h ++ evt.id ∷ []) events

abbrev pub IsShare : NotificationEvent → Type 0
IsShare evt = evt.type ≡ "video_shared"

-- The ideal client at a new share.
ideal_event-share :
    (me : String) (evt : NotificationEvent) (i : Ideal)
    → is_news i.history evt ≡ true
    → IsShare evt
    → ((ideal_event (some me) evt i).history ≡ i.history ++ evt.id ∷ [])
      × ((ideal_event (some me) evt i).unread ≡ i.unread + foreign me evt.payload)
unfolding ideal_event
ideal_event-share me evt i new video = elim (Bool-cases (evt.payload.shared_by_id == me)) [
  | inl own ↦ simp (new, video, own) (refl, omega arith)
  | inr other ↦ simp (new, video, other) (refl, omega arith)
]

-- The ideal client counts the foreign ones of new shares.
ideal_all-unread :
    (me : String) (events : List NotificationEvent) (i : Ideal)
    → AreNews i.history events
    → All IsShare events
    → (ideal_all (some me) events i).unread
      ≡ i.unread + total (foreign me) (map (λ evt. evt.payload) events)
unfolding ideal_all
ideal_all-unread me [] i new video = omega arith
ideal_all-unread me (evt ∷ events) i (new, news) (video, videos) =
    let (history, unread) = ideal_event-share me evt i new video in
    let rest = ideal_all-unread me events (ideal_event (some me) evt i) (rw history news) videos in
    omega arith

-- Rows that are not behind the mark are not counted.
count-seen :
    (t : ℕ) (me : String) (videos : List VideoRow)
    → All (λ v. v.created_at ≤ t) videos
    → count_shared_after (some t) me videos ≡ 0
count-seen t me [] seen = refl
count-seen t me (v ∷ videos) (old, seen) =
    let rest = count-seen t me videos seen in ground (arith, rest)

-- Rows behind the mark are counted where they are foreign.
count-grown :
    (t : ℕ) (me : String) (rows videos : List VideoRow)
    → All (λ v. t < v.created_at) rows
    → count_shared_after (some t) me (rows ++ videos)
      ≡ total (foreign me) (announced rows) + count_shared_after (some t) me videos
count-grown t me [] videos later = omega arith
count-grown t me (v ∷ rows) videos (new, later) =
    let rest = count-grown t me rows videos later in
    let both = total-append (foreign me) (announced rows) (payload_of v ∷ []) in
    ground (arith, rest, both)

-- The row of who has marked.
find-set_seen :
    (t : ℕ) (me : String) (readers : List Reader)
    → is_some (find_reader me readers) ≡ true
    → (r : Reader) × (find_reader me (set_seen t me readers) ≡ some r)
      × (r.id ≡ me)
      × (r.last_seen ≡ some t)
find-set_seen t me [] known = cc
find-set_seen t me (r ∷ readers) known = elim (Bool-cases (r.id == me)) [
  | inl mine ↦
      (record r { last_seen = some t }, simp mine refl, ground (arith, eq_iff r.id me), refl)
  | inr other ↦ simp other (find-set_seen t me readers (rw other at known))
]

mark_seen-marks :
    (t : ℕ) (me : String) (b : Board)
    → is_some (find_reader me b.readers) ≡ true
    → (mark_seen false t me b).0 ≡ record b { readers = set_seen t me b.readers }
unfolding mark_seen
mark_seen-marks t me b known = elim (Option-cases (find_reader me b.readers)) [
  | inl missing ↦ cc
  | inr (r, found) ↦ rw found refl
]

-- No query fails.
abbrev pub no_failure : CountCalls
no_failure = record { find_fails = false; count_fails = false }

unread_count-found :
    (me : String) (b : Board) (r : Reader)
    → find_reader me b.readers ≡ some r
    → unread_count no_failure me b
      ≡ counted (min max_unread (count_shared_after r.last_seen me b.service.videos))
unfolding unread_count
unread_count-found me b r found =
    rw found (ap counted (capped-min (count_shared_after r.last_seen me b.service.videos)))
  where
    capped-min : (n : ℕ) → capped n ≡ min max_unread n
    capped-min n = ground arith

-- The client of which the count is asked behind the reset.
abbrev pub client_after : String → List NotificationEvent → Client → Client
client_after me events c = handle_all (some me) events (record c { queries = on_seen c.queries })

client_after-count :
    (me : String) (events : List NotificationEvent) (c : Client) (i : Ideal)
    → Represents c i
    → AreNews i.history events
    → All IsShare events
    → client_count (client_after me events c).queries
      ≡ min max_unread (total (foreign me) (map (λ evt. evt.payload) events))
client_after-count me events c i r new video =
    let r' = handle_all-Represents (some me) events _ _ (on_seen-Represents c i r) in
    let counted = ideal_all-unread me events (record i { unread = 0 }) new video in
    omega (arith, r'.unread)

run-count :
    (go : GoText) (me : String) (t : ℕ) (b : Board) (calls : List Call) (reader : Reader)
    (payloads : List VideoSharedPayload)
    → find_reader me b.readers ≡ some reader
    → reader.last_seen ≡ some t
    → All (λ v. v.created_at ≤ t) b.service.videos
    → All (IsLater me t) calls
    → (run go calls b).service.jobs ≡ b.service.jobs ++ payloads
    → unread_count no_failure me (run go calls b)
      ≡ counted (min max_unread (total (foreign me) payloads))
run-count go me t b calls reader payloads found seen old later jobs =
    let (rows, g) = run-HasGrown go me t calls b later in
    let same : announced rows ≡ payloads =
      append_cancel_left b.service.jobs _ _ (sym g.jobs ∙ jobs) in
    let grown = count-grown t me rows b.service.videos g.later in
    let none_old = count-seen t me b.service.videos old in
    unread_count-found me (run go calls b) reader (g.marker ∙ found)
    ∙ rw (seen, g.videos, grown, none_old, same) (ap counted (omega arith))

-- A user that the table has marks everything as seen at a time `t`, and no video was shared later
-- than `t` before; then the server handles calls, in which only the others mark, and what is shared
-- is shared later than `t`. When the client, which was in step with the ideal one and has reset its
-- count, has handled the events of what was stored since, each of them new to it, then its count is
-- the one that the server answers, without a failure.
pub unread_count-agrees :
    (go : GoText) (me : String) (t : ℕ) (b : Board) (calls : List Call) (c : Client) (i : Ideal)
    (events : List NotificationEvent)
    → is_some (find_reader me b.readers) ≡ true
    → All (λ v. v.created_at ≤ t) b.service.videos
    → All (IsLater me t) calls
    → Represents c i
    → AreNews i.history events
    → All IsShare events
    → (run go calls (mark_seen false t me b).0).service.jobs
      ≡ b.service.jobs ++ map (λ evt. evt.payload) events
    → unread_count no_failure me (run go calls (mark_seen false t me b).0)
      ≡ counted (client_count (client_after me events c).queries)
unread_count-agrees go me t b calls c i events known old later r new video jobs =
    let marked = mark_seen-marks t me b known in
    let (reader, found, own, seen) = find-set_seen t me b.readers known in
    let server =
      run-count go me t (record b { readers = set_seen t me b.readers }) calls reader
        (map (λ evt. evt.payload) events) found seen old later (rw marked at jobs) in
    ap (λ a. unread_count no_failure me (run go calls a)) marked
    ∙ server
    ∙ ap counted (sym (client_after-count me events c i r new video))
