-- ===== src/Backend/Hub/Closed.antt =====
-- Closing the hub keeps what it keeps, and closes every channel that is open.
use ytshare.Base.{ℕ, ◌+◌, ◌≤◌, ◌≡◌, refl, ◌∙◌, false, List, [], ◌∷◌, arith}
use ytshare.Backend.Hub.{Hub, close}
use ytshare.Backend.Hub.Clients.{Client, Registry, ByUser, close_send, close_set, close_sets}
use ytshare.Backend.Hub.Index.{same, occurs, held}
use ytshare.Backend.Hub.Sound.{bit, IsSound}
use ytshare.Backend.Hub.Loop.{sent, set_chan_keeps}
use ytshare.Backend.Hub.Inbox.{Inbox}
use ytshare.Backend.Hub.Safe.{IsSafe, if-IsSafe}

-- Closing each channel as often as `times` says.
record Closing (times : ℕ → ℕ) (r r' : Registry) : Type 0 where
  pub calm : r'.panicked ≡ false
  pub ended : (id : ℕ) → bit (r'.chans id).closed ≡ times id + bit (r.chans id).closed
  pub kept : (id : ℕ) → sent (r'.chans id) ≡ sent (r.chans id)
  pub joined : (id : ℕ) → (r'.chans id).joined ≡ (r.chans id).joined

andthen :
    (f g : ℕ → ℕ) {r r' r'' : Registry}
    → Closing f r r'
    → Closing g r' r''
    → Closing (λ id. f id + g id) r r''
andthen f g c d = record {
  calm = d.calm;
  ended = λ id. omega (arith, c.ended id, d.ended id);
  kept = λ id. d.kept id ∙ c.kept id;
  joined = λ id. d.joined id ∙ c.joined id;
}

-- No channel is closed twice by closing as often as `times` says.
abbrev AreOnce : (ℕ → ℕ) → Registry → Type 0
AreOnce times r = (id : ℕ) → times id + bit (r.chans id).closed ≤ 1

close_send-Closing :
    (c : Client) (r : Registry)
    → r.panicked ≡ false
    → (r.chans c.id).closed ≡ false
    → Closing (λ id. same id c) r (close_send c.id r)
unfolding close_send
close_send-Closing c r calm open_chan = rw open_chan (record {
  calm = calm;
  ended = λ id. ground (arith, open_chan);
  kept = λ id. set_chan_keeps sent r.chans c.id _ id refl;
  joined = λ id. set_chan_keeps (λ ch. ch.joined) r.chans c.id _ id refl;
})

close_set-Closing :
    (set : List Client) (r : Registry)
    → r.panicked ≡ false
    → AreOnce (λ id. occurs id set) r
    → Closing (λ id. occurs id set) r (close_set set r)
unfolding close_set
close_set-Closing [] r calm once = record {
  calm = calm;
  ended = λ id. omega arith;
  kept = λ id. refl;
  joined = λ id. refl;
}
close_set-Closing (c ∷ set) r calm once =
    let own : same c.id c ≡ 1 = ground arith in
    let first : Closing (λ id. same id c) r (close_send c.id r) =
      close_send-Closing c r calm (ground (arith, once c.id)) in
    andthen (λ id. same id c) (λ id. occurs id set) first
      (close_set-Closing set (close_send c.id r) first.calm
        (λ id. omega (arith, once id, first.ended id)))

close_sets-Closing :
    (l : ByUser) (r : Registry)
    → r.panicked ≡ false
    → AreOnce (λ id. held id l) r
    → Closing (λ id. held id l) r (close_sets l r)
unfolding close_sets
close_sets-Closing [] r calm once = record {
  calm = calm;
  ended = λ id. omega arith;
  kept = λ id. refl;
  joined = λ id. refl;
}
close_sets-Closing ((user, set) ∷ l) r calm once =
    let first : Closing (λ id. occurs id set) r (close_set set r) =
      close_set-Closing set r calm (λ id. omega (arith, once id)) in
    andthen (λ id. occurs id set) (λ id. held id l) first
      (close_sets-Closing l (close_set set r) first.calm
        (λ id. omega (arith, once id, first.ended id)))

pub close-IsSafe : (h : Hub) → IsSafe h → IsSafe (close h)
unfolding close
close-IsSafe h s =
    if-IsSafe h.stopped h _ (λ _. s)
      (λ on.
        (let sound : IsSound h.clients h.registry = s.running on in
          let closing : Closing (λ id. held id h.registry.by_user) h.registry
              (close_sets h.registry.by_user h.registry) =
            close_sets-Closing h.registry.by_user h.registry s.calm sound.single in
          record {
            calm = closing.calm;
            running = λ e. absurd (cc e);
            emptied = λ _. refl;
            numbered = s.numbered;
            inbox = λ i c e.
                (let old : Inbox h.registry h.stopped h.log c = s.inbox i c e in
                  record {
                    gap = old.gap;
                    told = rw (closing.kept c.id, closing.joined c.id) old.told;
                    since = rw (closing.joined c.id) old.since;
                    up_to_date = λ e. absurd (cc e);
                    live = λ e. absurd (cc e);
                    over = λ _. ground (arith, closing.ended c.id, old.live on);
                  });
          }))
