-- ===== src/Notifications/Socket/Liveness.antt =====
-- The connection never dies while the effect is mounted, and stays down after it.
use ytshare.Base.{String, ◌≡◌, refl, true, false, inl, inr, Option, List, arith, not, Bool-cases}
use ytshare.Auth.Types.{AuthSession}
use ytshare.Notifications.Types.{NotificationEvent}
use ytshare.Notifications.Events.{Client}
use ytshare.Notifications.Socket.{
  SocketUrl, Hook, start, on_open, on_message, on_close, on_timer, on_recovered, cleanup, is_live,
  Step, opens, receives, closes, fires, recovers, unmounts, Reach, here, next,
}

-- While mounted, either a socket is up or coming up, or a reconnect is scheduled, and never both;
-- once unmounted there is neither.
pub record IsAlive (h : Hook) : Type 0 where
  pub mounted : h.cancelled ≡ false → is_live h.socket ≡ not h.timer
  pub unmounted : h.cancelled ≡ true → (is_live h.socket ≡ false) × (h.timer ≡ false)

start-IsAlive : (session : AuthSession) (client : Client) → IsAlive (start session client)
unfolding start
start-IsAlive session client = ground arith

module _ (parse : String → Option NotificationEvent) where
  Step-IsAlive : {h k : Hook} → Step parse h k → IsAlive h → IsAlive k
  unfolding on_open on_message on_close on_timer on_recovered cleanup
  Step-IsAlive (opens e) a = ground arith
  Step-IsAlive {h} (receives raw e) a = ground arith
  Step-IsAlive {h} (closes e) a = elim (Bool-cases h.cancelled) [
    | inl gone ↦ simp (gone, on_close) a
    | inr mounted ↦
        simp (mounted, on_close)
          (record { mounted = λ _. refl; unmounted = λ gone. absurd (ground arith) })
  ]
  Step-IsAlive (fires e) a = ground arith
  Step-IsAlive (recovers place response) a = ground arith
  Step-IsAlive unmounts a = ground arith

  -- From the start of the effect, after any callbacks in any order: while mounted, exactly one of a
  -- socket and a scheduled reconnect is there; after the cleanup, neither.
  pub Reach-IsAlive :
      (session : AuthSession) (client : Client) (h : Hook)
      → Reach parse (start session client) h
      → IsAlive h
  Reach-IsAlive session client h here = start-IsAlive session client
  Reach-IsAlive session client h (next {g} r st) =
      Step-IsAlive st (Reach-IsAlive session client g r)

  -- What a cleaned-up effect cannot undo.
  pub record IsGone (connections : List SocketUrl) (h : Hook) : Type 0 where
    pub cancelled : h.cancelled ≡ true
    pub same : h.connections ≡ connections

  Step-IsGone :
      (urls : List SocketUrl) {h k : Hook} → Step parse h k → IsGone urls h → IsGone urls k
  unfolding on_open on_message on_close on_timer on_recovered cleanup
  Step-IsGone urls (opens e) g = ground arith
  Step-IsGone urls (receives raw e) g = ground arith
  Step-IsGone urls (closes e) g = ground arith
  Step-IsGone urls (fires e) g = ground arith
  Step-IsGone urls (recovers place response) g = ground arith
  Step-IsGone urls unmounts g = ground arith

  Reach-IsGone : {h k : Hook} → Reach parse h k → h.cancelled ≡ true → IsGone h.connections k
  Reach-IsGone here e = record { cancelled = e; same = refl }
  Reach-IsGone {h} (next r st) e = Step-IsGone h.connections st (Reach-IsGone r e)

  -- After the cleanup, whatever still calls back, no socket is opened any more.
  pub Reach-cleanup : (h k : Hook) → Reach parse (cleanup h) k → k.connections ≡ h.connections
  unfolding cleanup
  Reach-cleanup h k r = (Reach-IsGone r refl).same
