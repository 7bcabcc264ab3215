-- ===== src/Backend/Replay/Resumed.antt =====
-- Why a page that resumes is sent nothing.
use ytshare.Base.{
  ℕ, String, ◌≡◌, refl, true, false, Bool-cases, ◌⊎◌, inl, inr, Option, none, get_or, List, [], ◌∷◌,
  All, ◌==◌, eq_iff,
}
use ytshare.Shared.Storage.{Storage, get_item}
use ytshare.Shared.Query.{QueryClient}
use ytshare.Notifications.Types.{VideoSharedPayload, NotificationEvent}
use ytshare.Notifications.Events.{
  Client, last_event_id_key, mount, announce, save_last_event_id, handle_event, handle_all,
}
use ytshare.Notifications.Events.Rule.{handle_event_rule}
use ytshare.Notifications.Socket.{since_of}
use ytshare.Backend.Hub.{Hub}
use ytshare.Backend.Stream.{Entry, Json}
use ytshare.Backend.Videos.Service.{ℤ}
use ytshare.Backend.Replay.{
  RedisRange, replay, replay_backlog, open_socket, since_reply, ws_replay_limit,
}

-- What is documented of XRANGE: some texts are ids of a stream, and it refuses the others.
pub record RangeLaws (range : RedisRange) : Type 0 where
  pub stream_id : String → Option ℕ
  pub refuses :
      (since : String) (limit : ℕ) (entries : List Entry)
      → stream_id since ≡ none
      → range.xrange since limit entries ≡ none

-- What the socket asks for.
abbrev pub asked_since : Client → String
asked_since c = get_or (since_of c.last_event_id) ""

module _ (json : Json) (range : RedisRange) (laws : RangeLaws range) where
  -- The id of an event, which is none of a stream.
  abbrev pub IsEventId : String → Type 0
  IsEventId id = laws.stream_id id ≡ none

  handle_event-IsEventId :
      (me : Option String) (evt : NotificationEvent) (c : Client)
      → IsEventId evt.id
      → IsEventId c.last_event_id
      → IsEventId (handle_event me evt c).last_event_id
  unfolding announce save_last_event_id
  handle_event-IsEventId me evt c new old =
      handle_event_rule (λ d. IsEventId d.last_event_id) me evt c (λ s. old) (λ s. new) (λ s e. new)

  handle_all-IsEventId :
      (me : Option String) (events : List NotificationEvent) (c : Client)
      → All (λ evt. IsEventId evt.id) events
      → IsEventId c.last_event_id
      → IsEventId (handle_all me events c).last_event_id
  unfolding handle_all
  handle_all-IsEventId me [] c news old = old
  handle_all-IsEventId me (evt ∷ events) c (new, news) old =
      handle_all-IsEventId me events (handle_event me evt c) news
        (handle_event-IsEventId me evt c new old)

  -- A text that is no id of a stream is not "0" either.
  replay-refused :
      (since : String) (limit : ℤ) (entries : List Entry)
      → (since == "") ≡ false
      → IsEventId since
      → replay json range since limit entries ≡ none
  unfolding replay
  replay-refused since limit entries named event =
      rw (named, laws.refuses since _ entries event) refl

  open_socket-nothing :
      (id user : String) (writes : ℕ) (entries : List Entry) (h : Hub)
      → IsEventId id
      → (open_socket json range true user (get_or (since_of id) "") writes entries h).1 ≡ []
  unfolding open_socket replay_backlog
  open_socket-nothing id user writes entries h event = elim (Bool-cases (id == "")) [
    | inl empty ↦ simp empty refl
    | inr named ↦ simp (named, laws.refuses id ws_replay_limit entries event) refl
  ]

  since_reply-refused :
      (id : String) (limit : Option ℤ) (entries : List Entry)
      → IsEventId id
      → (id ≡ "") ⊎ ((since_reply json range true id limit entries).status ≡ 500)
  unfolding since_reply
  since_reply-refused id limit entries event = elim (Bool-cases (id == "")) [
    | inl empty ↦ inl ((eq_iff id "").0 empty)
    | inr named ↦ inr (rw (replay-refused id _ entries named event) refl)
  ]

  -- As long as no event has the id of an entry of the stream, and the storage held none: a page that
  -- has handled any events, and resumes, is sent nothing, whatever the stream holds. The socket gets
  -- no frame, and the fallback over HTTP, for any id but the empty one, is answered with the status
  -- 500.
  pub resume-nothing :
      (me : Option String) (events : List NotificationEvent) (st : Storage)
      (toasts : List VideoSharedPayload) (q : QueryClient) (user : String) (writes : ℕ)
      (limit : Option ℤ) (entries : List Entry) (h : Hub)
      → All (λ evt. IsEventId evt.id) events
      → IsEventId (get_or (get_item st last_event_id_key) "")
      → let c = handle_all me events (mount st toasts q) in
        ((open_socket json range true user (asked_since c) writes entries h).1 ≡ [])
        × ((c.last_event_id ≡ "")
            ⊎ ((since_reply json range true c.last_event_id limit entries).status ≡ 500))
  unfolding mount
  resume-nothing me events st toasts q user writes limit entries h news old =
      let c : Client = handle_all me events (mount st toasts q) in
      let id : IsEventId c.last_event_id =
        handle_all-IsEventId me events (mount st toasts q) news old in
      (
        open_socket-nothing c.last_event_id user writes entries h id,
        since_reply-refused c.last_event_id limit entries id,
      )
