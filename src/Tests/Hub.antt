-- ===== src/Tests/Hub.antt =====
-- The hub at concrete events.
use ytshare.Base.{String, ◌≡◌, refl, true, false, List, [], ◌∷◌, ◌++◌, drop}
use ytshare.Backend.Hub.{
  Hub, Event, registers, unregisters, writes, publishes, dispatches, closes, run, step, new_hub,
}
use ytshare.Backend.Hub.Clients.{Client, nil_uuid, deliver_to_all, deliver_to}
use ytshare.Backend.Hub.Loop.{sent}
use ytshare.Backend.Hub.Inbox.{due}
use ytshare.Backend.Hub.Counted.{connected}
use ytshare.Backend.Hub.Runs.{run-calm_and_counted, run-delivers, run-closes}

-- Two users register. One message is for the first, one for both; the second leaves.
abbrev events : List Event
events =
    registers "u1"
    ∷ registers "u2"
    ∷ publishes "u1" "for one"
    ∷ publishes nil_uuid "for all"
    ∷ dispatches
    ∷ dispatches
    ∷ writes 0
    ∷ unregisters 1
    ∷ unregisters 1
    ∷ []

abbrev first : Client
first = record { id = 0; user_id = "u1" }

abbrev behind : Hub
behind = run events new_hub

given :
    ((behind.registry.chans 0).written ≡ "for one" ∷ [])
    × ((behind.registry.chans 0).queue ≡ "for all" ∷ [])
unfolding run step deliver_to_all deliver_to
given = (refl, refl)

given_second : ((behind.registry.chans 1).queue ≡ "for all" ∷ []) × (behind.registry.count ≡ 1)
unfolding run step deliver_to_all deliver_to
given_second = (refl, refl)

run-calm_and_counted_example :
    (behind.registry.panicked ≡ false) × (behind.registry.count ≡ connected behind)
run-calm_and_counted_example = run-calm_and_counted events

run-delivers_example :
    (missed : List String) × ((sent (behind.registry.chans 0) ++ missed
        ≡ due "u1" (drop (behind.registry.chans 0).joined behind.log))
      × ((behind.registry.chans 0).closed ≡ false → missed ≡ []))
unfolding run step
run-delivers_example = run-delivers events 0 first refl

run-closes_example :
    (((run (events ++ closes ∷ registers "u3" ∷ []) new_hub).registry.chans 2).closed ≡ true)
    × ((run (events ++ closes ∷ registers "u3" ∷ []) new_hub).registry.count ≡ 0)
unfolding run step
run-closes_example =
    run-closes events (registers "u3" ∷ []) 2 (record { id = 2; user_id = "u3" }) refl
