-- ===== src/Tests/Socket.antt =====
-- One life of the socket effect: open, an event, a loss, a reconnect, the cleanup.
use ytshare.Notifications.Socket.LogLine.{debug_url, url_text, debug_url-url_text}
use ytshare.Notifications.Socket.{SocketUrl}
use ytshare.Shared.Requests.{ws_base_url}
use ytshare.Base.{String, ◌≡◌, refl, inl, inr, Option, none, some, [], ◌∷◌, if◌then◌else◌, ◌==◌}
use ytshare.Notifications.Types.{NotificationEvent}
use ytshare.Notifications.Dedup.{remember_seen, evict}
use ytshare.Notifications.Events.{
  handle_all, handle_event, handle_new, announce, save_last_event_id,
}
use ytshare.Shared.Storage.{set_item}
use ytshare.Notifications.Socket.{
  Hook, start, connect, build_url, on_open, on_message, on_close, on_timer, recover_via_http,
  cleanup, Reach, here, next, opens, receives, closes, fires,
}
use ytshare.Notifications.Socket.Liveness.{IsAlive, Reach-IsAlive, Reach-cleanup}
use ytshare.Notifications.Socket.Delivery.{all_brought, Reach-client}
use ytshare.Tests.Samples.{alice_session, event, fresh_client, share_of}

program : Unit {0}
unfolding start connect build_url on_open on_message on_close on_timer recover_via_http cleanup
    handle_event handle_new announce save_last_event_id remember_seen evict set_item
program = tt

-- A parser that knows one message.
abbrev parse : String → Option NotificationEvent
parse raw = if raw == "m" then some (event "e1" "u2") else none

abbrev mounted : Hook
mounted = start alice_session fresh_client

abbrev lost : Hook
lost = on_close (on_message parse "m" (on_open mounted))

abbrev again : Hook
again = on_timer lost

to_again : Reach parse mounted again
unfolding program
to_again =
    next (next (next (next here (opens refl)) (receives "m" refl)) (closes (inl refl))) (fires refl)

-- The second connection resumes behind the event that the first one brought.
again_resumes :
    (again.connections
      ≡ record { access_token = "a"; since = none }
        ∷ record { access_token = "a"; since = some "e1" }
        ∷ [])
    × (again.client.toasts ≡ share_of "u2" ∷ [])
unfolding program
again_resumes = (refl, refl)

Reach-IsAlive_example : IsAlive again
Reach-IsAlive_example = Reach-IsAlive parse alice_session fresh_client again to_again

Reach-cleanup_example : (on_close (cleanup mounted)).connections ≡ mounted.connections
unfolding cleanup
Reach-cleanup_example =
    Reach-cleanup parse mounted (on_close (cleanup mounted)) (next here (closes (inr refl)))

Reach-client_example :
    again.client ≡ handle_all (some "u1") (all_brought parse to_again) mounted.client
unfolding start connect
Reach-client_example = Reach-client parse mounted again to_again

abbrev resumed_url : SocketUrl
resumed_url = record { access_token = "t0ken"; since = some "e1" }

logged :
    debug_url (url_text (λ s. s) (ws_base_url none) resumed_url)
    ≡ "ws://localhost:8080/api/v1/notifications/ws?access_token=***&since=e1"
unfolding debug_url
logged = refl

debug_url-url_text_example :
    debug_url (url_text (λ s. s) (ws_base_url none) resumed_url)
    ≡ "ws://localhost:8080/api/v1/notifications/ws?access_token=***&since=e1"
debug_url-url_text_example =
    debug_url-url_text (λ s. s) (ws_base_url none) resumed_url refl refl refl
