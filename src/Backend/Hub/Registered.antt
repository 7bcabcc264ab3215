-- ===== src/Backend/Hub/Registered.antt =====
-- Registering a client keeps what the hub keeps.
use ytshare.Base.{
  ℕ, ◌+◌, String, ◌≡◌, refl, sym, ap, ◌∙◌, Bool, true, false, Bool-cases, inl, inr, some, get_or,
  List, [], ◌∷◌, ◌++◌, if◌then◌else◌, nat_eq, length, get_elem?, get_elem-past_end, get_elem-at_end,
  get_elem-append, get_elem-bound, get_elem-grown, drop-length, All, arith,
}
use mathlib.Core.Path.{subst}
use ytshare.Backend.Hub.{Hub, register}
use ytshare.Backend.Hub.Clients.{
  Client, Chan, fresh_chan, Registry, member, put, set_at, set_chan, close_send, add,
}
use ytshare.Backend.Hub.Index.{
  same, occurs, held, IsUnique-put, weigh-put, IsFiled, AllFiled, AllFiled-put, AllFiled-set_at,
  occurs-member,
}
use ytshare.Backend.Hub.Sound.{bit, IsSound, held-unknown}
use ytshare.Backend.Hub.Loop.{sent, set_chan_self, set_chan_other}
use ytshare.Backend.Hub.Dispatch.{occurs-set_at-le}
use ytshare.Backend.Hub.Inbox.{due, Inbox, Inbox-quiet}
use ytshare.Backend.Hub.Safe.{IsSafe}

AllFiled_set-grown :
    (clients : List Client) (new : Client) (user : String) (set : List Client)
    → All (IsFiled clients user) set
    → All (IsFiled (clients ++ new ∷ []) user) set
AllFiled_set-grown clients new user [] f = tt
AllFiled_set-grown clients new user (c ∷ set) ((genuine, under), f) = (
  (get_elem-append clients (new ∷ []) c.id c genuine, under),
  AllFiled_set-grown clients new user set f,
)

AllFiled-grown :
    (clients : List Client) (new : Client) (l : List (String × List Client))
    → AllFiled clients l
    → AllFiled (clients ++ new ∷ []) l
AllFiled-grown clients new [] f = tt
AllFiled-grown clients new ((user, set) ∷ l) (g, f) =
    (AllFiled_set-grown clients new user set g, AllFiled-grown clients new l f)

module _ (user : String) (h : Hub) (s : IsSafe h) where
  abbrev new_client : Client
  new_client = record { id = length h.clients; user_id = user }

  -- The registry with the channel of the new client.
  abbrev ready : Registry
  ready = record h.registry {
    chans = set_chan h.registry.chans (length h.clients) (fresh_chan (length h.log));
  }

  abbrev listed : Registry
  listed = record ready {
    by_user = put user (new_client ∷ set_at user h.registry.by_user) h.registry.by_user;
    total = h.registry.total + 1;
    count = h.registry.total + 1;
  }

  unheld : h.stopped ≡ false → held (length h.clients) h.registry.by_user ≡ 0
  unheld on =
      held-unknown h.clients h.registry.by_user (length h.clients) (s.running on).filed
        (get_elem-past_end h.clients)

  add-listed : h.stopped ≡ false → add new_client ready ≡ listed
  unfolding add
  add-listed on = elim (Bool-cases (member (length h.clients) (set_at user h.registry.by_user))) [
    | inl there ↦ absurd (
        omega (
          arith,
          unheld on,
          occurs-member (length h.clients) (set_at user h.registry.by_user) there,
          occurs-set_at-le h.clients (length h.clients) user h.registry.by_user,
        ))
    | inr not_there ↦ rw not_there refl
  ]

  held-listed : (id : ℕ) → held id listed.by_user ≡ held id h.registry.by_user + same id new_client
  held-listed id = omega (
    arith,
    weigh-put (occurs id) user (new_client ∷ set_at user h.registry.by_user) h.registry.by_user
        refl,
  )

  listed-IsSound : h.stopped ≡ false → IsSound (h.clients ++ new_client ∷ []) listed
  listed-IsSound on =
      let sound : IsSound h.clients h.registry = s.running on in
      record {
        unique = IsUnique-put user _ h.registry.by_user sound.unique;
        filed =
            AllFiled-put (h.clients ++ new_client ∷ []) user _ h.registry.by_user
              (
                (get_elem-at_end h.clients new_client, refl),
                AllFiled_set-grown h.clients new_client user (set_at user h.registry.by_user)
                    (AllFiled-set_at h.clients user h.registry.by_user sound.filed),
              )
              (AllFiled-grown h.clients new_client h.registry.by_user sound.filed);
        calm = sound.calm;
        counted = omega (
          arith,
          sound.counted,
          weigh-put length user (new_client ∷ set_at user h.registry.by_user) h.registry.by_user
              refl,
        );
        atomic = refl;
        single = λ id. ground (arith, held-listed id, sound.single id, unheld on);
      }

  numbered-grown :
      (i : ℕ) (c : Client) → get_elem? (h.clients ++ new_client ∷ []) i ≡ some c → c.id ≡ i
  numbered-grown i c e = elim (get_elem-grown h.clients new_client i c e) [
    | inl before ↦ s.numbered i c before
    | inr (at, new) ↦ cc (at, new)
  ]

  old_chan :
      (i : ℕ) (c : Client) → get_elem? h.clients i ≡ some c → nat_eq c.id (length h.clients) ≡ false
  old_chan i c e = ground (arith, s.numbered i c e, get_elem-bound h.clients i c e)

  new_Inbox :
      (r : Registry) (ch : Chan)
      → r.chans (length h.clients) ≡ ch
      → sent ch ≡ []
      → ch.joined ≡ length h.log
      → (h.stopped ≡ false → held (length h.clients) r.by_user + bit ch.closed ≡ 1)
      → (h.stopped ≡ true → ch.closed ≡ true)
      → Inbox r h.stopped h.log new_client
  new_Inbox r ch e empty joined live over = record {
    gap = [];
    told = rw e (rw (empty, joined) (ap (due user) (sym (drop-length h.log))));
    since = rw e (rw joined (omega arith));
    up_to_date = λ _ _. refl;
    live = rw e live;
    over = rw e over;
  }

  old_Inbox :
      (r : Registry) (i : ℕ) (c : Client)
      → get_elem? h.clients i ≡ some c
      → r.chans c.id ≡ h.registry.chans c.id
      → held c.id r.by_user ≡ held c.id h.registry.by_user
      → Inbox r h.stopped h.log c
  old_Inbox r i c e same_chan same_held =
      Inbox-quiet h.registry r h.stopped h.log c (ap sent same_chan)
        (ap (λ ch. ch.joined) same_chan) (omega (arith, same_held))
        (λ _. rw (same_chan, same_held) refl) (λ _. ap (λ ch. ch.closed) same_chan) (s.inbox i c e)

  in_grown :
      (r : Registry)
      → ((i : ℕ) (c : Client) → get_elem? h.clients i ≡ some c → Inbox r h.stopped h.log c)
      → Inbox r h.stopped h.log new_client
      → (i : ℕ) (c : Client) → get_elem? (h.clients ++ new_client ∷ []) i ≡ some c
      → Inbox r h.stopped h.log c
  in_grown r old new i c e = elim (get_elem-grown h.clients new_client i c e) [
    | inl before ↦ old i c before
    | inr (at, last) ↦
        subst (Inbox r h.stopped h.log) (sym (ap (λ o. get_or o new_client) last)) new
  ]

  -- What a client gets that registers behind the close.
  abbrev turned_away : Registry
  turned_away = record ready {
    chans =
        set_chan ready.chans (length h.clients)
          (record (fresh_chan (length h.log)) { closed = true });
  }

  close_send-ready : close_send (length h.clients) ready ≡ turned_away
  unfolding close_send
  close_send-ready =
      rw (set_chan_self h.registry.chans (length h.clients) (fresh_chan (length h.log))) refl

  by_stopped :
      (b : Bool)
      → h.stopped ≡ b
      → IsSafe (record h {
        clients = h.clients ++ new_client ∷ [];
        registry = if b then close_send (length h.clients) ready else add new_client ready;
      })
  by_stopped true ended = simp close_send-ready (record {
    calm = s.calm;
    running = λ on. absurd (cc (on, ended));
    emptied = s.emptied;
    numbered = numbered-grown;
    inbox =
        in_grown turned_away
          (λ i c e.
            old_Inbox turned_away i c e
              (set_chan_other ready.chans (length h.clients) _ c.id (old_chan i c e)
                ∙ set_chan_other h.registry.chans (length h.clients) _ c.id (old_chan i c e))
              refl)
          (new_Inbox turned_away (record (fresh_chan (length h.log)) { closed = true })
            (set_chan_self ready.chans (length h.clients) _) refl refl
            (λ on. absurd (cc (on, ended))) (λ _. refl));
  })
  by_stopped false on = simp (add-listed on) (record {
    calm = s.calm;
    running = λ _. listed-IsSound on;
    emptied = λ ended. absurd (cc (on, ended));
    numbered = numbered-grown;
    inbox =
        in_grown listed
          (λ i c e.
            old_Inbox listed i c e
              (set_chan_other h.registry.chans (length h.clients) _ c.id (old_chan i c e))
              (ground (arith, held-listed c.id, old_chan i c e)))
          (new_Inbox listed (fresh_chan (length h.log))
            (set_chan_self h.registry.chans (length h.clients) _) refl refl
            (λ _. ground (arith, held-listed (length h.clients), unheld on))
            (λ ended. absurd (cc (on, ended))));
  })

  pub register-IsSafe : IsSafe (register user h)
  unfolding register
  register-IsSafe = by_stopped h.stopped refl
