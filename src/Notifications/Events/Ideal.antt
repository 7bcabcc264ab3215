-- ===== src/Notifications/Events/Ideal.antt =====
-- An ideal client, which keeps every accepted id, counts without a cap, and shows a toast for each
-- shared video of somebody else. `handleEvent` implements it.
use ytshare.Base.{
  ℕ, ◌+◌, min, String, ◌≡◌, refl, ap, Bool, Option, get_or, List, [], ◌∷◌, ◌++◌, if◌then◌else◌,
  ◌==◌, truthy, not, ◌&&◌, contains, arith, Bool-cases, inl, inr, ne-of-truthy,
}
use ytshare.Notifications.Types.{VideoSharedPayload, NotificationEvent}
use ytshare.Notifications.Dedup.{Seen}
use ytshare.Notifications.Dedup.Window.{Tracks, window, remember_seen-Tracks}
use ytshare.Notifications.Events.{
  Client, unread_max, is_own, announce, save_last_event_id, handle_new, handle_event, handle_all,
}

-- A share of somebody else.
abbrev pub is_shown : Option String → NotificationEvent → Bool
is_shown me evt = evt.type == "video_shared" && not (is_own me evt.payload)

-- An event that is not among the last accepted ones, and has an id.
abbrev pub is_news : List String → NotificationEvent → Bool
is_news h evt = truthy evt.id && not (contains (window h) evt.id)

pub record Ideal : Type 0 where
  pub history : List String
  pub last : String
  pub toasts : List VideoSharedPayload
  pub unread : ℕ

abbrev pub show : VideoSharedPayload → Ideal → Ideal
show p i = record i { toasts = i.toasts ++ p ∷ []; unread = i.unread + 1 }

abbrev pub record_id : String → Ideal → Ideal
record_id id i = record i { history = i.history ++ id ∷ []; last = id }

unfoldable pub ideal_event : Option String → NotificationEvent → Ideal → Ideal
ideal_event me evt i =
    if is_news i.history evt
    then (if is_shown me evt then show evt.payload (record_id evt.id i) else record_id evt.id i)
    else i

unfoldable pub ideal_all : Option String → List NotificationEvent → Ideal → Ideal
ideal_all me [] i = i
ideal_all me (evt ∷ events) i = ideal_all me events (ideal_event me evt i)

-- The bounded client at hand stands for the ideal one.
pub record Represents (c : Client) (i : Ideal) : Type 0 where
  pub tracks : Tracks c.seen i.history
  pub last : c.last_event_id ≡ i.last
  pub toasts : c.toasts ≡ i.toasts
  pub unread : get_or c.queries.unread 0 ≡ min i.unread unread_max

seen-Represents :
    (c : Client) (i : Ideal) (seen : Seen)
    → Represents c i
    → Tracks seen i.history
    → Represents (record c { seen = seen }) i
seen-Represents c i seen r t = record {
  tracks = t;
  last = r.last;
  toasts = r.toasts;
  unread = r.unread;
}

saved-Represents :
    (evt : NotificationEvent) (c : Client) (i : Ideal) (seen : Seen)
    → Represents c i
    → Tracks seen (i.history ++ evt.id ∷ [])
    → Represents (save_last_event_id evt.id (record c { seen = seen })) (record_id evt.id i)
unfolding save_last_event_id
saved-Represents evt c i seen r t = record {
  tracks = t;
  last = refl;
  toasts = r.toasts;
  unread = r.unread;
}

announce-Represents :
    (p : VideoSharedPayload) {c : Client} {i : Ideal}
    → Represents c i
    → Represents (announce p c) (show p i)
unfolding announce
announce-Represents p r = record {
  tracks = r.tracks;
  last = r.last;
  toasts = ap (λ l. l ++ p ∷ []) r.toasts;
  unread = rw r.unread (omega arith);
}

handle_new-Represents :
    (me : Option String) (evt : NotificationEvent) (c : Client) (i : Ideal) (seen : Seen)
    → Represents c i
    → Tracks seen (i.history ++ evt.id ∷ [])
    → Represents
        (handle_new me evt (record c { seen = seen }))
        (if is_shown me evt then show evt.payload (record_id evt.id i) else record_id evt.id i)
unfolding handle_new
handle_new-Represents me evt c i seen r t = elim (Bool-cases (evt.type == "video_shared")) [
  | inr other ↦ rw other (saved-Represents evt c i seen r t)
  | inl video ↦ elim (Bool-cases (is_own me evt.payload)) [
    | inl own ↦ rw (video, own) (saved-Represents evt c i seen r t)
    | inr foreign ↦
        rw (video, foreign) (announce-Represents evt.payload (saved-Represents evt c i seen r t))
  ]
]

-- Every event keeps the bounded client in step with the ideal one.
pub handle_event-Represents :
    (me : Option String) (evt : NotificationEvent) (c : Client) (i : Ideal)
    → Represents c i
    → Represents (handle_event me evt c) (ideal_event me evt i)
unfolding handle_event ideal_event
handle_event-Represents me evt c i r = elim (Bool-cases (truthy evt.id)) [
  | inr blank ↦ rw blank r
  | inl named ↦
      let (t, same) =
        remember_seen-Tracks c.seen i.history evt.id (ne-of-truthy evt.id named) r.tracks in
      elim (Bool-cases (contains (window i.history) evt.id)) [
        | inl old ↦ rw (named, old, same, old) (seen-Represents c i _ r (rw old at t))
        | inr new ↦ rw (named, new, same, new) (handle_new-Represents me evt c i _ r (rw new at t))
      ]
]

-- Handling any sequence of events keeps a client in step with the ideal client, which remembers the
-- whole history and counts without a cap: the toasts and the last id are the same, what is refused
-- as a duplicate is the same, and the cached unread count is the ideal one, capped at 99.
pub handle_all-Represents :
    (me : Option String) (events : List NotificationEvent) (c : Client) (i : Ideal)
    → Represents c i
    → Represents (handle_all me events c) (ideal_all me events i)
unfolding handle_all ideal_all
handle_all-Represents me [] c i r = r
handle_all-Represents me (evt ∷ events) c i r =
    handle_all-Represents me events (handle_event me evt c) (ideal_event me evt i)
      (handle_event-Represents me evt c i r)
