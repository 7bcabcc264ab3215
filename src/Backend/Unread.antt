-- ===== src/Backend/Unread.antt =====
-- backend/internal/modules/notifications/service.go: how many shares a user has not seen, and the
-- mark of what was seen, over the tables of users and of videos.
pub mod Grown
pub mod Agrees
use ytshare.Base.{
  ℕ, suc, String, Bool, true, false, ◌&&◌, not, Option, none, some, List, [], ◌∷◌, if◌then◌else◌,
  ltb, ◌==◌,
}
use ytshare.Backend.Videos.{GoText}
use ytshare.Backend.Videos.Service.{VideoRow, Service, Request, handle}

-- MaxUnread
abbrev pub max_unread : ℕ
max_unread = 99

-- A row of `users`: its id and `last_notifications_seen_at`.
pub record Reader : Type 0 where
  pub id : String
  pub last_seen : Option ℕ

-- `FindByID`
abbrev pub find_reader : String → List Reader → Option Reader
find_reader user [] = none
find_reader user (r ∷ readers) = if r.id == user then some r else find_reader user readers

-- The rows behind `SetLastNotificationsSeenAt`.
abbrev pub set_seen : ℕ → String → List Reader → List Reader
set_seen now user [] = []
set_seen now user (r ∷ readers) =
    let rest = set_seen now user readers in
    if r.id == user then record r { last_seen = some now } ∷ rest else r ∷ rest

-- `created_at > after`, where there is an `after`.
abbrev pub is_after : Option ℕ → ℕ → Bool
is_after none created = true
is_after (some after) created = ltb after created

-- `CountSharedAfter`
abbrev pub count_shared_after : Option ℕ → String → List VideoRow → ℕ
count_shared_after after user [] = 0
count_shared_after after user (v ∷ videos) =
    let rest = count_shared_after after user videos in
    if not (v.shared_by.id == user) && is_after after v.created_at then suc rest else rest

-- Both tables.
pub record Board : Type 0 where
  pub readers : List Reader
  pub service : Service

pub data UnreadError : Type 0 where
  no_user internal : UnreadError

pub data Counted : Type 0 where
  counted : ℕ → Counted
  not_counted : UnreadError → Counted

-- Which queries of `UnreadCount` fail.
pub record CountCalls : Type 0 where
  pub find_fails : Bool
  pub count_fails : Bool

abbrev capped : ℕ → ℕ
capped n = if ltb max_unread n then max_unread else n

abbrev count_for : Option Reader → CountCalls → String → Board → Counted
count_for none calls user b = not_counted no_user
count_for (some r) calls user b =
    if calls.count_fails
    then not_counted internal
    else counted (capped (count_shared_after r.last_seen user b.service.videos))

-- `UnreadCount`
unfoldable pub unread_count : CountCalls → String → Board → Counted
unread_count calls user b =
    if calls.find_fails
    then not_counted internal
    else count_for (find_reader user b.readers) calls user b

pub data Marked : Type 0 where
  marked_at : ℕ → Marked
  not_marked : UnreadError → Marked

abbrev mark_for : Option Reader → ℕ → String → Board → Board × Marked
mark_for none now user b = (b, not_marked no_user)
mark_for (some r) now user b = (record b { readers = set_seen now user b.readers }, marked_at now)

-- `MarkSeen` at the time `now`, for which the update fails or not.
unfoldable pub mark_seen : Bool → ℕ → String → Board → Board × Marked
mark_seen fails now user b =
    if fails then (b, not_marked internal) else mark_for (find_reader user b.readers) now user b

-- What happens to the tables.
pub data Call : Type 0 where
  counts : (calls : CountCalls) → (user : String) → Call
  marks : (fails : Bool) → (now : ℕ) → (user : String) → Call
  serves : Request → Call

module _ (go : GoText) where
  unfoldable pub step : Call → Board → Board
  unfolding handle
  step (counts calls user) b = b
  step (marks fails now user) b = (mark_seen fails now user b).0
  step (serves request) b = record b { service = (handle go request b.service).0 }

  unfoldable pub run : List Call → Board → Board
  unfolding step
  run [] b = b
  run (call ∷ calls) b = run calls (step call b)
