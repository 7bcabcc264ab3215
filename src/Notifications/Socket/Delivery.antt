-- ===== src/Notifications/Socket/Delivery.antt =====
-- However the events reach the client, live or recovered, they act as one sequence.
use ytshare.Base.{
  String, ◌≡◌, refl, sym, ap, ◌∙◌, inl, inr, Option, none, some, List, [], ◌∷◌, ◌++◌, arith,
  Option-cases,
}
use ytshare.Http.Machine.{pick}
use ytshare.Notifications.Types.{NotificationEvent, NotificationsSinceResponse}
use ytshare.Notifications.Events.{Client, handle_event, handle_all}
use ytshare.Notifications.Socket.{
  Hook, on_open, on_message, on_close, on_timer, on_recovered, recovered_events, cleanup, Step,
  opens, receives, closes, fires, recovers, unmounts, Reach, here, next,
}

pub handle_all-append :
    (me : Option String) (xs ys : List NotificationEvent) (c : Client)
    → handle_all me (xs ++ ys) c ≡ handle_all me ys (handle_all me xs c)
unfolding handle_all
handle_all-append me [] ys c = refl
handle_all-append me (x ∷ xs) ys c = handle_all-append me xs ys (handle_event me x c)

abbrev pub parsed_events : Option NotificationEvent → List NotificationEvent
parsed_events none = []
parsed_events (some evt) = evt ∷ []

abbrev pub response_events : Option NotificationsSinceResponse → List NotificationEvent
response_events none = []
response_events (some response) = response.events

abbrev pub recovered_at :
    Option (String × List String) → Option NotificationsSinceResponse → List NotificationEvent
recovered_at none response = []
recovered_at (some _) response = response_events response

module _ (parse : String → Option NotificationEvent) where
  -- The events that a step brings.
  abbrev pub brought : {h k : Hook} → Step parse h k → List NotificationEvent
  brought {h} (receives raw e) = parsed_events (parse raw)
  brought {h} (recovers place response) = recovered_at (pick place h.recoveries) response
  brought _ = []

  abbrev pub all_brought : {h k : Hook} → Reach parse h k → List NotificationEvent
  all_brought here = []
  all_brought (next r st) = all_brought r ++ brought st

  -- The session is kept, and the client went on by the events.
  record IsFed (h k : Hook) (events : List NotificationEvent) : Type 0 where
    session : k.session ≡ h.session
    client : k.client ≡ handle_all (some h.session.user.id) events h.client

  recovered-IsFed :
      (h : Hook) (rest : List String) (response : Option NotificationsSinceResponse)
      → IsFed h
          (recovered_events response (record h { recoveries = rest }))
          (response_events response)
  unfolding handle_all
  recovered-IsFed h rest none = record { session = refl; client = refl }
  recovered-IsFed h rest (some response) = record { session = refl; client = refl }

  Step-IsFed : {h k : Hook} (st : Step parse h k) → IsFed h k (brought st)
  unfolding on_open on_message on_close on_timer on_recovered cleanup handle_all
  Step-IsFed (opens e) = record { session = refl; client = refl }
  Step-IsFed {h} (receives raw e) = elim (Option-cases (parse raw)) [
    | inl bad ↦ rw bad (record { session = refl; client = refl })
    | inr (evt, good) ↦ rw good (record { session = refl; client = refl })
  ]
  Step-IsFed {h} (closes e) = record { session = ground arith; client = ground arith }
  Step-IsFed {h} (fires e) = record { session = ground arith; client = ground arith }
  Step-IsFed {h} (recovers place response) = elim (Option-cases (pick place h.recoveries)) [
    | inl nothing ↦ rw nothing (record { session = refl; client = refl })
    | inr ((id, rest), found) ↦ rw found (recovered-IsFed h rest response)
  ]
  Step-IsFed unmounts = record { session = refl; client = refl }

  Reach-IsFed : {h k : Hook} (r : Reach parse h k) → IsFed h k (all_brought r)
  unfolding handle_all
  Reach-IsFed here = record { session = refl; client = refl }
  Reach-IsFed {h} {k} (next {g} r st) =
      let before = Reach-IsFed r in
      let after = Step-IsFed st in
      record {
        session = after.session ∙ before.session;
        client =
            after.client
            ∙ ap (λ s. handle_all (some s.user.id) (brought st) g.client) before.session
            ∙ ap (handle_all (some h.session.user.id) (brought st)) before.client
            ∙ sym
                (handle_all-append (some h.session.user.id) (all_brought r) (brought st) h.client);
      }

  -- Over any run of the effect the client ends as if the events of the socket and of the HTTP
  -- recoveries had come as one sequence, in the order of their arrival, and handled for the user of
  -- the session; opening, closing, failing, reconnecting and unmounting change nothing of it.
  pub Reach-client :
      (h k : Hook) (r : Reach parse h k)
      → k.client ≡ handle_all (some h.session.user.id) (all_brought r) h.client
  Reach-client h k r = (Reach-IsFed r).client
