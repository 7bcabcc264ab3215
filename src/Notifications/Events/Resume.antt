-- ===== src/Notifications/Events/Resume.antt =====
-- What a reload resumes from.
use ytshare.Base.{String, ◌≡◌, refl, true, Option, get_or, List}
use ytshare.Shared.Storage.{Storage, get_item, set_item-writable}
use ytshare.Shared.Query.{QueryClient}
use ytshare.Notifications.Types.{VideoSharedPayload, NotificationEvent}
use ytshare.Notifications.Events.{
  Client, last_event_id_key, mount, announce, save_last_event_id, handle_event, handle_all,
}
use ytshare.Notifications.Events.Rule.{handle_event_rule, handle_all_rule}

-- Writing works, and the storage holds the last event id.
pub record IsSaved (c : Client) : Type 0 where
  pub writable : c.storage.writable ≡ true
  pub saved : get_or (get_item c.storage last_event_id_key) "" ≡ c.last_event_id

pub mount-IsSaved :
    (st : Storage) (toasts : List VideoSharedPayload) (q : QueryClient)
    → st.writable ≡ true
    → IsSaved (mount st toasts q)
unfolding mount
mount-IsSaved st toasts q w = record { writable = w; saved = refl }

save_last_event_id-IsSaved :
    (id : String) (c : Client) → c.storage.writable ≡ true → IsSaved (save_last_event_id id c)
unfolding save_last_event_id
save_last_event_id-IsSaved id c w =
    rw (set_item-writable c.storage last_event_id_key id w) (record { writable = w; saved = refl })

announce-IsSaved : (p : VideoSharedPayload) (c : Client) → IsSaved c → IsSaved (announce p c)
unfolding announce
announce-IsSaved p c h = record { writable = h.writable; saved = h.saved }

handle_event-IsSaved :
    (me : Option String) (evt : NotificationEvent) (c : Client)
    → IsSaved c
    → IsSaved (handle_event me evt c)
handle_event-IsSaved me evt c h =
    handle_event_rule IsSaved me evt c (λ s. record { writable = h.writable; saved = h.saved })
      (λ s. save_last_event_id-IsSaved evt.id _ h.writable)
      (λ s _. announce-IsSaved evt.payload _ (save_last_event_id-IsSaved evt.id _ h.writable))

-- A page that is loaded again after any events resumes from the same last event id, if the storage
-- accepts writes.
pub mount-handle_all :
    (me : Option String) (events : List NotificationEvent) (st : Storage)
    (toasts : List VideoSharedPayload) (q : QueryClient)
    → st.writable ≡ true
    → let c = handle_all me events (mount st toasts q) in
      (mount c.storage c.toasts c.queries).last_event_id ≡ c.last_event_id
unfolding mount
mount-handle_all me events st toasts q w =
    (handle_all_rule IsSaved me (handle_event-IsSaved me) events (mount st toasts q)
      (mount-IsSaved st toasts q w)).saved
