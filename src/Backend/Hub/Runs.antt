-- ===== src/Backend/Hub/Runs.antt =====
-- Whole runs of the hub.
use ytshare.Base.{
  ℕ, String, ◌≡◌, refl, sym, ap, ◌∙◌, true, false, Bool-cases, Option, none, some, List, [], ◌∷◌,
  ◌++◌, if◌then◌else◌, get_elem?, drop, arith, ◌==◌, eq_iff, inl, inr,
}
use ytshare.Backend.Hub.{
  Hub, Event, registers, unregisters, writes, publishes, dispatches, closes, send_to_user, publish,
  step, run, new_hub, close, unregistered, dispatched,
}
use ytshare.Backend.Hub.Clients.{Client, nil_uuid, DispatchMsg}
use ytshare.Backend.Hub.Loop.{sent}
use ytshare.Backend.Hub.Inbox.{due, Inbox}
use ytshare.Backend.Hub.Safe.{
  IsSafe, dispatch_next-IsSafe, write_next-IsSafe, publish-IsSafe, unregister-IsSafe,
}
use ytshare.Backend.Hub.Registered.{register-IsSafe}
use ytshare.Backend.Hub.Counted.{connected, count-connected}
use ytshare.Backend.Hub.Sound.{bit}
use ytshare.Backend.Hub.Closed.{close-IsSafe}

send_to_user-publish :
    (user payload : String) (h : Hub) → send_to_user user payload h ≡ publish user payload h
send_to_user-publish user payload h = elim (Bool-cases (user == nil_uuid)) [
  | inl nobody ↦ rw nobody (ap (λ u. publish u payload h) (sym ((eq_iff user nil_uuid).0 nobody)))
  | inr one ↦ rw one refl
]

step-IsSafe : (event : Event) (h : Hub) → IsSafe h → IsSafe (step event h)
unfolding step
step-IsSafe (registers user) h s = register-IsSafe user h s
step-IsSafe (unregisters id) h s = unregister-IsSafe id h s
step-IsSafe (writes id) h s = write_next-IsSafe id h s
step-IsSafe (publishes recipient payload) h s =
    rw (send_to_user-publish recipient payload h) (publish-IsSafe recipient payload h s)
step-IsSafe dispatches h s = dispatch_next-IsSafe h s
step-IsSafe closes h s = close-IsSafe h s

pub run_from-IsSafe : (events : List Event) (h : Hub) → IsSafe h → IsSafe (run events h)
unfolding run
run_from-IsSafe [] h s = s
run_from-IsSafe (event ∷ events) h s = run_from-IsSafe events (step event h) (step-IsSafe event h s)

new_hub-IsSafe : IsSafe new_hub
new_hub-IsSafe = record {
  calm = refl;
  running = λ _. record {
    unique = tt;
    filed = tt;
    calm = refl;
    counted = refl;
    atomic = refl;
    single = λ id. omega arith;
  };
  emptied = λ e. refl;
  numbered = λ i c e. cc e;
  inbox = λ i c e. cc e;
}

run_new-IsSafe : (events : List Event) → IsSafe (run events new_hub)
run_new-IsSafe events = run_from-IsSafe events new_hub new_hub-IsSafe

-- After any events at the hub, no closed channel was sent to or closed again, and the count of
-- connections is the number of clients whose channel is open.
pub run-calm_and_counted :
    (events : List Event)
    → ((run events new_hub).registry.panicked ≡ false)
      × ((run events new_hub).registry.count ≡ connected (run events new_hub))
run-calm_and_counted events =
    let s : IsSafe (run events new_hub) = run_new-IsSafe events in
    (s.calm, count-connected (run events new_hub) s)

-- After any events, what a client was given, written and waiting together, is in order the beginning
-- of the messages addressed to its user since it registered. Until it is dropped or the hub is
-- closed, it is all of them.
pub run-delivers :
    (events : List Event) (i : ℕ) (c : Client)
    → get_elem? (run events new_hub).clients i ≡ some c
    → (missed : List String) × ((sent ((run events new_hub).registry.chans c.id) ++ missed
          ≡ due c.user_id
              (drop ((run events new_hub).registry.chans c.id).joined (run events new_hub).log))
        × (((run events new_hub).registry.chans c.id).closed ≡ false → missed ≡ []))
run-delivers events i c e =
    let s : IsSafe (run events new_hub) = run_new-IsSafe events in
    let b : Inbox _ _ _ c = s.inbox i c e in
    (
      b.gap,
      (
        b.told,
        λ still_open. elim (Bool-cases (run events new_hub).stopped) [
          | inl ended ↦ absurd (cc (b.over ended, still_open))
          | inr on ↦ b.up_to_date on (omega (arith, b.live on, ap bit still_open))
        ],
      ),
    )

stopped_of_if : (h h' : Hub) → h.stopped ≡ true → (if h.stopped then h else h').stopped ≡ true
stopped_of_if h h' e = ap (λ b. (if b then h else h').stopped) e ∙ e

unregistered-stopped :
    (found : Option Client) (h : Hub) → h.stopped ≡ true → (unregistered found h).stopped ≡ true
unregistered-stopped none h e = e
unregistered-stopped (some c) h e = stopped_of_if h _ e

dispatched-stopped :
    (queue : List DispatchMsg) (h : Hub) → h.stopped ≡ true → (dispatched queue h).stopped ≡ true
dispatched-stopped [] h e = e
dispatched-stopped (msg ∷ queue) h e = stopped_of_if h _ e

step-stopped : (event : Event) (h : Hub) → h.stopped ≡ true → (step event h).stopped ≡ true
unfolding step
step-stopped (registers user) h e = e
step-stopped (unregisters id) h e = unregistered-stopped (get_elem? h.clients id) h e
step-stopped (writes id) h e = e
step-stopped (publishes recipient payload) h e =
    ap (λ h. h.stopped) (send_to_user-publish recipient payload h) ∙ stopped_of_if h _ e
step-stopped dispatches h e = dispatched-stopped h.queue h e
step-stopped closes h e = stopped_of_if h _ e

close-stopped : (h : Hub) → (close h).stopped ≡ true
unfolding close
close-stopped h = elim (Bool-cases h.stopped) [
  | inl ended ↦ stopped_of_if h _ ended
  | inr on ↦ rw on refl
]

run-stopped : (events : List Event) (h : Hub) → h.stopped ≡ true → (run events h).stopped ≡ true
unfolding run
run-stopped [] h e = e
run-stopped (event ∷ events) h e = run-stopped events (step event h) (step-stopped event h e)

run-append : (events more : List Event) (h : Hub) → run (events ++ more) h ≡ run more (run events h)
unfolding run
run-append [] more h = refl
run-append (event ∷ events) more h = run-append events more (step event h)

-- Once the hub is closed, the channel of every client is closed, also of those that register later,
-- and no connection is counted.
pub run-closes :
    (before after : List Event) (i : ℕ) (c : Client)
    → get_elem? (run (before ++ closes ∷ after) new_hub).clients i ≡ some c
    → (((run (before ++ closes ∷ after) new_hub).registry.chans c.id).closed ≡ true)
      × ((run (before ++ closes ∷ after) new_hub).registry.count ≡ 0)
unfolding run step
run-closes before after i c e =
    let s : IsSafe (run (before ++ closes ∷ after) new_hub) =
      run_new-IsSafe (before ++ closes ∷ after) in
    let ended : (run (before ++ closes ∷ after) new_hub).stopped ≡ true =
      ap (λ h. h.stopped) (run-append before (closes ∷ after) new_hub)
      ∙ run-stopped after (close (run before new_hub)) (close-stopped (run before new_hub)) in
    ((s.inbox i c e).over ended, s.emptied ended)
