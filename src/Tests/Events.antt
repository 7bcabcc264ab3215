-- ===== src/Tests/Events.antt =====
-- Events at concrete clients.
use ytshare.Base.{
  String, ◌≡◌, refl, Bool, true, false, ◌&&◌, Option, some, List, [], ◌∷◌, ◌++◌, arith, eq_iff,
  ◌==◌,
}
use ytshare.Shared.Storage.{set_item}
use ytshare.Shared.Query.{QueryKey, KeyPart, text, params, KeyMatch, texts}
use ytshare.Notifications.Dedup.{evict, remember_seen}
use ytshare.Notifications.Dedup.Invariant.{no_seen-IsWellFormed}
use ytshare.Notifications.Dedup.Window.{no_seen-Tracks}
use ytshare.Notifications.Events.{
  save_last_event_id, announce, handle_new, handle_event, handle_all,
}
use ytshare.Notifications.Events.Ideal.{Ideal, Represents, ideal_all, handle_all-Represents}
use ytshare.Notifications.Events.Replay.{handle_all-replay}
use ytshare.Tests.Samples.{alice, event, share_of, fresh_client, two_events}

program : Unit {0}
unfolding handle_all handle_event handle_new announce save_last_event_id remember_seen evict
    set_item
program = tt

abbrev pub me : Option String
me = some alice.id

-- Bob's share is announced, Alice's own is not; both are remembered.
two_events_handled :
    ((handle_all me two_events fresh_client).toasts ≡ share_of "u2" ∷ [])
    × ((handle_all me two_events fresh_client).last_event_id ≡ "e2")
    × ((handle_all me two_events fresh_client).queries.unread ≡ some 1)
unfolding program
two_events_handled = (refl, refl, refl)

abbrev pub blank : Ideal
blank = record { history = []; last = ""; toasts = []; unread = 0 }

pub fresh-Represents : Represents fresh_client blank
fresh-Represents = record { tracks = no_seen-Tracks; last = refl; toasts = refl; unread = refl }

handle_all-Represents_example :
    Represents (handle_all me two_events fresh_client) (ideal_all me two_events blank)
handle_all-Represents_example =
    handle_all-Represents me two_events fresh_client blank fresh-Represents

handle_all-replay_example :
    handle_all me (event "e2" "u1" ∷ event "e1" "u2" ∷ []) (handle_all me two_events fresh_client)
    ≡ handle_all me two_events fresh_client
handle_all-replay_example =
    handle_all-replay me two_events (event "e2" "u1" ∷ event "e1" "u2" ∷ []) fresh_client
      no_seen-IsWellFormed (omega arith) (refl, (refl, tt)) (refl, (refl, tt))

-- A filter selects the keys that begin with it.
abbrev same_part : KeyPart → KeyPart → Bool
same_part (text a) (text b) = a == b
same_part _ _ = false

abbrev begins : QueryKey → QueryKey → Bool
begins [] key = true
begins (p ∷ filter) [] = false
begins (p ∷ filter) (q ∷ key) = same_part p q && begins filter key

rest_of :
    (filter : List String) (key : QueryKey)
    → begins (texts filter) key ≡ true
    → (rest : QueryKey) × (key ≡ texts filter ++ rest)
rest_of [] key h = (key, refl)
rest_of (f ∷ filter) [] h = cc
rest_of (f ∷ filter) (text t ∷ key) h =
    let (rest, same) = rest_of filter key (ground arith) in (rest, ground (arith, eq_iff f t))
rest_of (f ∷ filter) (params p ∷ key) h = cc

begins_self :
    (filter : List String) (rest : QueryKey) → begins (texts filter) (texts filter ++ rest) ≡ true
begins_self [] rest = refl
begins_self (f ∷ filter) rest = ground (arith, eq_iff f f, begins_self filter rest)

pub prefix_match : KeyMatch
prefix_match = record {
  covers = begins;
  covers_iff = λ filter key. (rest_of filter key, λ p. rw p.1 (begins_self filter p.0));
}
