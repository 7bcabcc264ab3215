-- ===== src/Backend/Hub/Safe.antt =====
-- What the hub keeps over every event.
use ytshare.Base.{
  ℕ, ◌≤◌, String, ◌≡◌, refl, sym, ap, ◌∙◌, Bool, true, false, Bool-cases, inl, inr, some, List, [],
  ◌∷◌, ◌++◌, append_assoc, if◌then◌else◌, length, get_elem?, ltb, Option-cases, arith,
}
use ytshare.Backend.Hub.{
  Hub, unregister, dispatch_next, write_next, publish, wrote, dispatched, broadcast_buffer,
}
use ytshare.Backend.Hub.Clients.{Client, Chan, Registry, DispatchMsg, set_chan, drop_client}
use ytshare.Backend.Hub.Index.{held}
use ytshare.Backend.Hub.Sound.{
  IsSound, without, drop_client-without, drop_client-absent, held-without, without-IsSound,
}
use ytshare.Backend.Hub.Loop.{sent, set_chan_keeps, Outcome}
use ytshare.Backend.Hub.Dispatch.{dispatch-Outcome}
use ytshare.Backend.Hub.Inbox.{Inbox, Inbox-quiet, Inbox-dispatch}

pub record IsSafe (h : Hub) : Type 0 where
  pub calm : h.registry.panicked ≡ false
  pub running : h.stopped ≡ false → IsSound h.clients h.registry
  pub emptied : h.stopped ≡ true → h.registry.count ≡ 0
  pub numbered : (i : ℕ) (c : Client) → get_elem? h.clients i ≡ some c → c.id ≡ i
  pub inbox :
      (i : ℕ) (c : Client) → get_elem? h.clients i ≡ some c → Inbox h.registry h.stopped h.log c

known_of :
    (h : Hub) (i : ℕ) (c : Client)
    → IsSafe h
    → get_elem? h.clients i ≡ some c
    → get_elem? h.clients c.id ≡ some c
known_of h i c s e = ap (λ n. get_elem? h.clients n) (s.numbered i c e) ∙ e

pub if-IsSafe :
    (b : Bool) (h h' : Hub)
    → (b ≡ true → IsSafe h)
    → (b ≡ false → IsSafe h')
    → IsSafe (if b then h else h')
if-IsSafe true h h' s s' = s refl
if-IsSafe false h h' s s' = s' refl

dispatched-IsSafe : (queue : List DispatchMsg) (h : Hub) → IsSafe h → IsSafe (dispatched queue h)
dispatched-IsSafe [] h s = s
dispatched-IsSafe (msg ∷ queue) h s =
    if-IsSafe h.stopped h _ (λ _. s)
      (λ on.
        (let o : Outcome h.clients msg.payload _ h.registry _ =
            dispatch-Outcome h.clients msg h.registry (s.running on) in
          record {
            calm = o.sound.calm;
            running = λ _. o.sound;
            emptied = λ ended. absurd (cc (on, ended));
            numbered = s.numbered;
            inbox = λ i c e. rw on (
                Inbox-dispatch h.clients msg h.registry h.log c (s.running on) (known_of h i c s e)
                  (rw (sym on) (s.inbox i c e)));
          }))

pub dispatch_next-IsSafe : (h : Hub) → IsSafe h → IsSafe (dispatch_next h)
unfolding dispatch_next
dispatch_next-IsSafe h s = dispatched-IsSafe h.queue h s

sent-wrote : (queue : List String) (ch : Chan) → queue ≡ ch.queue → sent (wrote queue ch) ≡ sent ch
sent-wrote [] ch e = refl
sent-wrote (msg ∷ queue) ch e =
    append_assoc ch.written (msg ∷ []) queue ∙ ap (λ l. ch.written ++ l) e

closed-wrote : (queue : List String) (ch : Chan) → (wrote queue ch).closed ≡ ch.closed
closed-wrote [] ch = refl
closed-wrote (msg ∷ queue) ch = refl

joined-wrote : (queue : List String) (ch : Chan) → (wrote queue ch).joined ≡ ch.joined
joined-wrote [] ch = refl
joined-wrote (msg ∷ queue) ch = refl

pub write_next-IsSafe : (id : ℕ) (h : Hub) → IsSafe h → IsSafe (write_next id h)
unfolding write_next
write_next-IsSafe id h s =
    let ch : Chan = h.registry.chans id in
    let closed : (x : ℕ)
        → (set_chan h.registry.chans id (wrote ch.queue ch) x).closed
          ≡ (h.registry.chans x).closed =
      λ x.
        set_chan_keeps (λ ch. ch.closed) h.registry.chans id (wrote ch.queue ch) x
          (closed-wrote ch.queue ch) in
    record {
      calm = s.calm;
      running = λ on.
          (let sound : IsSound h.clients h.registry = s.running on in
            record {
              unique = sound.unique;
              filed = sound.filed;
              calm = sound.calm;
              counted = sound.counted;
              atomic = sound.atomic;
              single = λ x. rw (closed x) (sound.single x);
            });
      emptied = s.emptied;
      numbered = s.numbered;
      inbox = λ i c e.
          Inbox-quiet h.registry _ h.stopped h.log c
            (set_chan_keeps sent h.registry.chans id (wrote ch.queue ch) c.id
              (sent-wrote ch.queue ch refl))
            (set_chan_keeps (λ ch. ch.joined) h.registry.chans id (wrote ch.queue ch) c.id
              (joined-wrote ch.queue ch))
            (omega arith) (λ _. rw (closed c.id) refl) (λ _. closed c.id) (s.inbox i c e);
    }

pub publish-IsSafe :
    (recipient payload : String) (h : Hub) → IsSafe h → IsSafe (publish recipient payload h)
unfolding publish
publish-IsSafe recipient payload h s =
    if-IsSafe h.stopped h _ (λ _. s)
      (λ _.
        if-IsSafe (ltb (length h.queue) broadcast_buffer) _ h
          (λ _. record {
            calm = s.calm;
            running = s.running;
            emptied = s.emptied;
            numbered = s.numbered;
            inbox = s.inbox;
          })
          (λ _. s))

without-IsSafe :
    (c : Client) (h : Hub)
    → IsSafe h
    → h.stopped ≡ false
    → get_elem? h.clients c.id ≡ some c
    → 1 ≤ held c.id h.registry.by_user
    → IsSafe (record h { registry = without h.clients c h.registry })
without-IsSafe c h s on e present =
    let r : Registry = h.registry in
    let sound : IsSound h.clients r = s.running on in
    record {
      calm = s.calm;
      running = λ _. without-IsSound h.clients c r sound e present;
      emptied = λ ended. absurd (cc (on, ended));
      numbered = s.numbered;
      inbox = λ i d e'.
          Inbox-quiet r (without h.clients c r) h.stopped h.log d
            (set_chan_keeps sent r.chans c.id _ d.id refl)
            (set_chan_keeps (λ ch. ch.joined) r.chans c.id _ d.id refl)
            (omega (arith, held-without h.clients d.id c r sound e present))
            (λ _.
              ground (arith, held-without h.clients d.id c r sound e present, sound.single d.id))
            (λ ended. absurd (cc (on, ended))) (s.inbox i d e');
    }

-- A client is dropped, or was not there.
dropped-IsSafe :
    (c : Client) (h : Hub)
    → IsSafe h
    → h.stopped ≡ false
    → get_elem? h.clients c.id ≡ some c
    → IsSafe (record h { registry = drop_client c h.registry })
dropped-IsSafe c h s on e = elim (Bool-cases (ltb 0 (held c.id h.registry.by_user))) [
  | inl present ↦
      simp (drop_client-without h.clients c h.registry (s.running on) e (ground arith))
        (without-IsSafe c h s on e (ground arith))
  | inr absent ↦ simp (drop_client-absent h.clients c h.registry (s.running on) e (ground arith)) s
]

pub unregister-IsSafe : (id : ℕ) (h : Hub) → IsSafe h → IsSafe (unregister id h)
unfolding unregister
unregister-IsSafe id h s = elim (Option-cases (get_elem? h.clients id)) [
  | inl unknown ↦ simp unknown s
  | inr (c, found) ↦
      simp found
        (if-IsSafe h.stopped h _ (λ _. s) (λ on. dropped-IsSafe c h s on (known_of h id c s found)))
]
