-- ===== src/Notifications/Events/Own.antt =====
-- The client announces no share of its own user.
use ytshare.Base.{String, ◌≢◌, some, List, [], ◌∷◌, All, All-append, arith, eq_iff}
use ytshare.Notifications.Types.{VideoSharedPayload, NotificationEvent}
use ytshare.Notifications.Events.{Client, announce, save_last_event_id, handle_event, handle_all}
use ytshare.Notifications.Events.Rule.{handle_event_rule, handle_all_rule}

-- Shared by somebody else than `me`.
abbrev pub IsForeign : String → VideoSharedPayload → Type 0
IsForeign me p = p.shared_by_id ≢ me

handle_event-IsForeign :
    (me : String) (evt : NotificationEvent) (c : Client)
    → All (IsForeign me) c.toasts
    → All (IsForeign me) (handle_event (some me) evt c).toasts
unfolding announce save_last_event_id
handle_event-IsForeign me evt c h =
    handle_event_rule (λ d. All (IsForeign me) d.toasts) (some me) evt c (λ s. h) (λ s. h)
      λ s foreign.
        All-append (IsForeign me) c.toasts (evt.payload ∷ []) h
          (ground (arith, eq_iff evt.payload.shared_by_id me), tt)

-- Whatever the events, no toast announces a share of the signed-in user.
pub handle_all-IsForeign :
    (me : String) (events : List NotificationEvent) (c : Client)
    → All (IsForeign me) c.toasts
    → All (IsForeign me) (handle_all (some me) events c).toasts
handle_all-IsForeign me =
    handle_all_rule (λ d. All (IsForeign me) d.toasts) (some me) (handle_event-IsForeign me)
