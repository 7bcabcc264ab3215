-- ===== src/Notifications/Events/Replay.antt =====
-- At-least-once delivery: events that come again change nothing.
use ytshare.Base.{
  String, ◌≡◌, refl, ap, ◌∙◌, ◌≤◌, true, false, ◌⊎◌, inl, inr, Option, List, [], ◌∷◌, map, length,
  truthy, contains, All, arith, Bool-cases, ne-of-truthy, if◌then◌else◌, ◌==◌, eq_iff,
}
use ytshare.Notifications.Types.{NotificationEvent}
use ytshare.Notifications.Dedup.{Seen, seen_event_cap, remember_seen, remember_all}
use ytshare.Notifications.Dedup.Invariant.{IsWellFormed}
use ytshare.Notifications.Dedup.Window.{AreNamed}
use ytshare.Notifications.Dedup.Replay.{remember_all-batch}
use ytshare.Notifications.Events.{
  Client, announce, save_last_event_id, handle_new, handle_event, handle_all,
}

-- Events that the client skips: without an id, or with a known one.
abbrev pub IsSkipped : Seen → NotificationEvent → Type 0
IsSkipped s evt = (truthy evt.id ≡ false) ⊎ (s.seen_ids evt.id ≡ true)

handle_event_skipped :
    (me : Option String) (evt : NotificationEvent) (c : Client)
    → IsSkipped c.seen evt
    → handle_event me evt c ≡ c
unfolding handle_event remember_seen
handle_event_skipped me evt c (inl blank) = rw blank refl
handle_event_skipped me evt c (inr known) = elim (Bool-cases (truthy evt.id)) [
  | inr blank ↦ rw blank refl
  | inl named ↦ rw (named, known) refl
]

pub handle_all_skipped :
    (me : Option String) (events : List NotificationEvent) (c : Client)
    → All (IsSkipped c.seen) events
    → handle_all me events c ≡ c
unfolding handle_all
handle_all_skipped me [] c _ = refl
handle_all_skipped me (evt ∷ events) c (h, hs) =
    rw (handle_event_skipped me evt c h) (handle_all_skipped me events c hs)

abbrev pub ids : List NotificationEvent → List String
ids = map (λ e. e.id)

-- The ids of a batch that are not blank.
named_ids : List NotificationEvent → List String
named_ids [] = []
named_ids (evt ∷ events) =
    let rest = named_ids events in if truthy evt.id then evt.id ∷ rest else rest

AreNamed-named_ids : (events : List NotificationEvent) → AreNamed (named_ids events)
unfolding named_ids
AreNamed-named_ids [] = tt
AreNamed-named_ids (evt ∷ events) = elim (Bool-cases (truthy evt.id)) [
  | inl named ↦ rw named (ne-of-truthy evt.id named, AreNamed-named_ids events)
  | inr blank ↦ rw blank (AreNamed-named_ids events)
]

length-named_ids : (events : List NotificationEvent) → length (named_ids events) ≤ length events
unfolding named_ids
length-named_ids [] = omega arith
length-named_ids (evt ∷ events) = ground (arith, length-named_ids events)

All-named_ids :
    (P : String → Type 0) (events : List NotificationEvent)
    → All (λ e. P e.id) events
    → All P (named_ids events)
unfolding named_ids
All-named_ids P [] _ = tt
All-named_ids P (evt ∷ events) (h, hs) = elim (Bool-cases (truthy evt.id)) [
  | inl named ↦ rw named (h, All-named_ids P events hs)
  | inr blank ↦ rw blank (All-named_ids P events hs)
]

contains-named_ids :
    (events : List NotificationEvent) (x : String)
    → truthy x ≡ true
    → contains (ids events) x ≡ true
    → contains (named_ids events) x ≡ true
unfolding named_ids
contains-named_ids [] x t h = h
contains-named_ids (evt ∷ events) x t h = elim (Bool-cases (truthy evt.id)) [
  | inl named ↦ rw named (ground (arith, contains-named_ids events x t))
  | inr blank ↦ rw blank (elim (Bool-cases (x == evt.id)) [
    | inl same ↦ absurd (ground (arith, ap truthy ((eq_iff x evt.id).0 same)))
    | inr other ↦ contains-named_ids events x t (ground arith)
  ])
]

seen-handle_new :
    (me : Option String) (evt : NotificationEvent) (c : Client)
    → (handle_new me evt c).seen ≡ c.seen
unfolding handle_new announce save_last_event_id
seen-handle_new me evt c = ground arith

seen-handle_event :
    (me : Option String) (evt : NotificationEvent) (c : Client)
    → truthy evt.id ≡ true
    → (handle_event me evt c).seen ≡ (remember_seen c.seen evt.id).0
unfolding handle_event
seen-handle_event me evt c named = elim (Bool-cases (remember_seen c.seen evt.id).1) [
  | inl new ↦
      rw (named, new) (seen-handle_new me evt (record c { seen = (remember_seen c.seen evt.id).0 }))
  | inr old ↦ rw (named, old) refl
]

-- The refs after a batch are those of the deduplication alone.
seen-handle_all :
    (me : Option String) (events : List NotificationEvent) (c : Client)
    → (handle_all me events c).seen ≡ (remember_all c.seen (named_ids events)).0
unfolding handle_all remember_all named_ids
seen-handle_all me [] c = refl
seen-handle_all me (evt ∷ events) c = elim (Bool-cases (truthy evt.id)) [
  | inl named ↦ rw named (
      seen-handle_all me events (handle_event me evt c)
      ∙ ap (λ s. (remember_all s (named_ids events)).0) (seen-handle_event me evt c named))
  | inr blank ↦ rw blank (
      seen-handle_all me events (handle_event me evt c)
      ∙ ap (λ d. (remember_all d.seen (named_ids events)).0)
          (handle_event_skipped me evt c (inl blank)))
]

replayed-IsSkipped :
    (s : Seen) (events again : List NotificationEvent)
    → ((x : String) → contains (named_ids events) x ≡ true → s.seen_ids x ≡ true)
    → All (λ e. contains (ids events) e.id ≡ true) again
    → All (IsSkipped s) again
replayed-IsSkipped s events [] known _ = tt
replayed-IsSkipped s events (evt ∷ again) known (h, hs) = (
  elim (Bool-cases (truthy evt.id)) [
    | inl named ↦ inr (known evt.id (contains-named_ids events evt.id named h))
    | inr blank ↦ inl blank
  ],
  replayed-IsSkipped s events again known hs,
)

-- At-least-once delivery has the effects of delivery once: on well-formed refs, after a batch of at
-- most 256 events whose ids were not queued, any events with ids of the batch, in any order and
-- number, leave the client as it is: refs, storage, toasts and query cache.
pub handle_all-replay :
    (me : Option String) (events again : List NotificationEvent) (c : Client)
    → IsWellFormed c.seen
    → length events ≤ seen_event_cap
    → All (λ e. contains c.seen.seen_order e.id ≡ false) events
    → All (λ e. contains (ids events) e.id ≡ true) again
    → handle_all me again (handle_all me events c) ≡ handle_all me events c
handle_all-replay me events again c wf short new drawn =
    handle_all_skipped me again (handle_all me events c)
      (replayed-IsSkipped (handle_all me events c).seen events again known drawn)
  where
    known :
        (x : String)
        → contains (named_ids events) x ≡ true
        → (handle_all me events c).seen.seen_ids x ≡ true
    known x e = rw (seen-handle_all me events c) (
        remember_all-batch c.seen (named_ids events) wf (AreNamed-named_ids events)
          (All-named_ids (λ id. contains c.seen.seen_order id ≡ false) events new)
          (omega (arith, length-named_ids events, short)) x e)
