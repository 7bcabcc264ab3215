-- ===== src/Notifications/Dedup.antt =====
-- The deduplication of useNotificationsSocket.tsx: `seenIdsRef`, `seenOrderRef`, `rememberSeen`.
pub mod Invariant
pub mod Window
pub mod Replay
use ytshare.Base.{
  ℕ, String, ◌≡◌, Bool, true, false, ◌||◌, List, [], ◌∷◌, ◌++◌, ltb, if◌then◌else◌, truthy, length,
  contains, ◌==◌,
}

-- SEEN_EVENT_CAP
abbrev pub seen_event_cap : ℕ
seen_event_cap = 256

-- A `Set<string>` is the test of its members.
abbrev pub set_add : String → (String → Bool) → String → Bool
set_add id s x = x == id || s x

abbrev pub set_delete : String → (String → Bool) → String → Bool
set_delete id s x = if x == id then false else s x

-- The two refs that `rememberSeen` keeps.
pub record Seen : Type 0 where
  pub seen_ids : String → Bool
  pub seen_order : List String

abbrev pub no_seen : Seen
no_seen = record { seen_ids = λ _. false; seen_order = [] }

-- `shift` on the order, and the removal of what it returns, if that is truthy.
abbrev shift_evict : List String → Seen → Seen
shift_evict [] s = s
shift_evict (evicted ∷ rest) s = record {
  seen_ids = if truthy evicted then set_delete evicted s.seen_ids else s.seen_ids;
  seen_order = rest;
}

-- The second half of `rememberSeen`.
unfoldable pub evict : Seen → Seen
evict s = if ltb seen_event_cap (length s.seen_order) then shift_evict s.seen_order s else s

abbrev pub push_seen : Seen → String → Seen
push_seen s id = record { seen_ids = set_add id s.seen_ids; seen_order = s.seen_order ++ id ∷ [] }

-- `rememberSeen`: the new refs, and whether the id is new.
unfoldable pub remember_seen : Seen → String → Seen × Bool
remember_seen s id = if s.seen_ids id then (s, false) else (evict (push_seen s id), true)

-- One call for each id, in order, with the answers.
unfoldable pub remember_all : Seen → List String → Seen × List Bool
remember_all s [] = (s, [])
remember_all s (id ∷ ids) =
    let (s', fresh) = remember_seen s id in
    let (last, answers) = remember_all s' ids in (last, fresh ∷ answers)
