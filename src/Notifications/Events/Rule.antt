-- ===== src/Notifications/Events/Rule.antt =====
-- One rule for what holds after an event: the refs alone change, or the id is saved too, or the
-- event is announced as well.
use ytshare.Base.{◌≡◌, false, Option, String, List, [], ◌∷◌, ◌==◌, truthy, Bool-cases, inl, inr}
use ytshare.Notifications.Types.{NotificationEvent}
use ytshare.Notifications.Dedup.{Seen, remember_seen}
use ytshare.Notifications.Events.{
  Client, is_own, announce, save_last_event_id, handle_new, handle_event, handle_all,
}

module _ {ℓ} (P : Client → Type ℓ) (me : Option String) where
  handle_new_rule :
      (evt : NotificationEvent) (c : Client)
      → P (save_last_event_id evt.id c)
      → (is_own me evt.payload ≡ false → P (announce evt.payload (save_last_event_id evt.id c)))
      → P (handle_new me evt c)
  unfolding handle_new
  handle_new_rule evt c saved announced = elim (Bool-cases (evt.type == "video_shared")) [
    | inr other ↦ rw other saved
    | inl video ↦ elim (Bool-cases (is_own me evt.payload)) [
      | inl own ↦ rw (video, own) saved
      | inr foreign ↦ rw (video, foreign) (announced foreign)
    ]
  ]

  pub handle_event_rule :
      (evt : NotificationEvent) (c : Client)
      → ((s : Seen) → P (record c { seen = s }))
      → ((s : Seen) → P (save_last_event_id evt.id (record c { seen = s })))
      → ((s : Seen)
          → is_own me evt.payload ≡ false
          → P (announce evt.payload (save_last_event_id evt.id (record c { seen = s }))))
      → P (handle_event me evt c)
  unfolding handle_event
  handle_event_rule evt c kept saved announced = elim (Bool-cases (truthy evt.id)) [
    | inr blank ↦ rw blank (kept c.seen)
    | inl named ↦ elim (Bool-cases (remember_seen c.seen evt.id).1) [
      | inr old ↦ rw (named, old) (kept (remember_seen c.seen evt.id).0)
      | inl new ↦
          let s = (remember_seen c.seen evt.id).0 in
          rw (named, new) (handle_new_rule evt (record c { seen = s }) (saved s) (announced s))
    ]
  ]

  -- What every event keeps, every sequence of events keeps.
  pub handle_all_rule :
      ((evt : NotificationEvent) (c : Client) → P c → P (handle_event me evt c))
      → (events : List NotificationEvent) (c : Client) → P c
      → P (handle_all me events c)
  unfolding handle_all
  handle_all_rule step [] c h = h
  handle_all_rule step (evt ∷ events) c h =
      handle_all_rule step events (handle_event me evt c) (step evt c h)
