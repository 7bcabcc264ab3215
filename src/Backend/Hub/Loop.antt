-- ===== src/Backend/Hub/Loop.antt =====
-- What offering one message to a set of clients does to each of them.
use ytshare.Base.{
  ℕ, zero, suc, ◌+◌, ◌≤◌, String, ◌≡◌, refl, sym, ap, ◌∙◌, true, false, Bool-cases, ◌⊎◌, inl, inr,
  some, List, [], ◌∷◌, ◌++◌, append-nil, append_assoc, if◌then◌else◌, ltb, nat_eq, length,
  get_elem?, All, arith,
}
use ytshare.Backend.Hub.Clients.{
  Client, Chan, Registry, send_buffer_size, set_chan, deliver, deliver_or_drop, deliver_to,
}
use ytshare.Backend.Hub.Index.{same, occurs, held}
use ytshare.Backend.Hub.Sound.{
  bit, IsSound, without, drop_client-without, held-without, without-IsSound,
}

-- What a channel was ever given: what is written, and what waits.
abbrev pub sent : Chan → List String
sent ch = ch.written ++ ch.queue

abbrev pub offer : ℕ → String → List String
offer zero payload = []
offer (suc _) payload = payload ∷ []

-- Offering the payload `k` times (0 or 1) to the client with the number.
pub record Effect (payload : String) (id k : ℕ) (r r' : Registry) : Type 0 where
  pub extra : List String
  pub given : sent (r'.chans id) ≡ sent (r.chans id) ++ extra
  pub part : (extra ≡ []) ⊎ (extra ≡ offer k payload)
  pub full : 1 ≤ held id r'.by_user → extra ≡ offer k payload
  pub same_joined : (r'.chans id).joined ≡ (r.chans id).joined
  pub fewer : held id r'.by_user ≤ held id r.by_user
  pub balance :
      held id r'.by_user + bit (r'.chans id).closed ≡ held id r.by_user + bit (r.chans id).closed
  pub others : k ≡ 0 → held id r'.by_user ≡ held id r.by_user

untouched : (payload : String) (id : ℕ) (r : Registry) → Effect payload id 0 r r
untouched payload id r = record {
  extra = [];
  given = sym (append-nil (sent (r.chans id)));
  part = inl refl;
  full = λ _. refl;
  same_joined = refl;
  fewer = omega arith;
  balance = refl;
  others = λ _. refl;
}

no_extra :
    {payload : String} {id : ℕ} {r r' : Registry} (e : Effect payload id 0 r r') → e.extra ≡ []
no_extra e = elim e.part [ inl p ↦ p | inr p ↦ p ]

compose :
    (payload : String) (id j k : ℕ) {r r' r'' : Registry}
    → j + k ≤ 1
    → Effect payload id j r r'
    → Effect payload id k r' r''
    → Effect payload id (j + k) r r''
compose payload id zero k h e f =
    let z : 0 + k ≡ k = omega arith in
    rw z (record {
      extra = f.extra;
      given = f.given ∙ ap (λ l. l ++ f.extra) (e.given ∙ rw (no_extra e) (append-nil _));
      part = f.part;
      full = f.full;
      same_joined = f.same_joined ∙ e.same_joined;
      fewer = omega (arith, e.fewer, f.fewer);
      balance = f.balance ∙ e.balance;
      others = λ z. f.others z ∙ e.others refl;
    })
compose payload id (suc j) zero h e f =
    let z : suc j + 0 ≡ suc j = omega arith in
    rw z (record {
      extra = e.extra;
      given = f.given ∙ (rw (no_extra f) (append-nil _) ∙ e.given);
      part = e.part;
      full = λ g. e.full (omega (arith, g, f.fewer));
      same_joined = f.same_joined ∙ e.same_joined;
      fewer = omega (arith, e.fewer, f.fewer);
      balance = f.balance ∙ e.balance;
      others = λ z. absurd (omega (arith, z));
    })
compose payload id (suc j) (suc k) h e f = absurd (omega (arith, h))

nat_eq_refl : (n : ℕ) → nat_eq n n ≡ true
nat_eq_refl n = ground arith

pub set_chan_self : (chans : ℕ → Chan) (id : ℕ) (ch : Chan) → set_chan chans id ch id ≡ ch
set_chan_self chans id ch = rw (nat_eq_refl id) refl

pub set_chan_other :
    (chans : ℕ → Chan) (id : ℕ) (ch : Chan) (x : ℕ)
    → nat_eq x id ≡ false
    → set_chan chans id ch x ≡ chans x
set_chan_other chans id ch x h = rw h refl

pub set_chan_keeps {ℓ} :
    {A : Type ℓ} (f : Chan → A) (chans : ℕ → Chan) (id : ℕ) (ch : Chan) (x : ℕ)
    → f ch ≡ f (chans id)
    → f (set_chan chans id ch x) ≡ f (chans x)
set_chan_keeps f chans id ch x h = elim (Bool-cases (nat_eq x id)) [
  | inl here ↦ let ids : id ≡ x = ground arith in rw here (h ∙ ap (λ i. f (chans i)) ids)
  | inr other ↦ rw other refl
]

-- The payload fits into the channel.
abbrev pushed : Client → String → Registry → Registry
pushed c payload r = record r {
  chans =
      set_chan r.chans c.id
        (record (r.chans c.id) { queue = (r.chans c.id).queue ++ payload ∷ [] });
}

pushed-Effect :
    (c : Client) (payload : String) (r : Registry) (id : ℕ)
    → Effect payload id (same id c) r (pushed c payload r)
pushed-Effect c payload r id = elim (Bool-cases (nat_eq c.id id)) [
  | inl here ↦
      let ids : c.id ≡ id = ground arith in
      rw (← ids) (
        rw (nat_eq_refl c.id) (record {
          extra = payload ∷ [];
          given =
              ap sent (set_chan_self r.chans c.id _)
              ∙ sym (append_assoc (r.chans c.id).written (r.chans c.id).queue (payload ∷ []));
          part = inr refl;
          full = λ _. refl;
          same_joined = ap (λ ch. ch.joined) (set_chan_self r.chans c.id _);
          fewer = omega arith;
          balance = omega (arith, ap (λ ch. bit ch.closed) (set_chan_self r.chans c.id _));
          others = λ z. absurd (omega (arith, z));
        }))
  | inr other ↦
      let same_chan : (pushed c payload r).chans id ≡ r.chans id =
        set_chan_other r.chans c.id _ id (ground arith) in
      rw other (record {
        extra = [];
        given = ap sent same_chan ∙ sym (append-nil (sent (r.chans id)));
        part = inl refl;
        full = λ _. refl;
        same_joined = ap (λ ch. ch.joined) same_chan;
        fewer = omega arith;
        balance = omega (arith, ap (λ ch. bit ch.closed) same_chan);
        others = λ _. refl;
      })
]

module _ (clients : List Client) where
  without-Effect :
      (c : Client) (payload : String) (r : Registry) (id : ℕ)
      → IsSound clients r
      → get_elem? clients c.id ≡ some c
      → 1 ≤ held c.id r.by_user
      → Effect payload id (same id c) r (without clients c r)
  without-Effect c payload r id s e h = record {
    extra = [];
    given = set_chan_keeps sent r.chans c.id _ id refl ∙ sym (append-nil (sent (r.chans id)));
    part = inl refl;
    full = λ g.
        (let z : same id c ≡ 0 = omega (arith, g, held-without clients id c r s e h, s.single id) in
          rw z refl);
    same_joined = set_chan_keeps (λ ch. ch.joined) r.chans c.id _ id refl;
    fewer = omega (arith, held-without clients id c r s e h);
    balance = ground (arith, held-without clients id c r s e h, s.single id);
    others = λ z. omega (arith, z, held-without clients id c r s e h);
  }

  pushed-IsSound :
      (c : Client) (payload : String) (r : Registry)
      → IsSound clients r
      → IsSound clients (pushed c payload r)
  pushed-IsSound c payload r s = record {
    unique = s.unique;
    filed = s.filed;
    calm = s.calm;
    counted = s.counted;
    atomic = s.atomic;
    single = λ id. ground (arith, s.single id);
  }

  deliver_or_drop_lem :
      (c : Client) (payload : String) (r : Registry)
      → IsSound clients r
      → get_elem? clients c.id ≡ some c
      → 1 ≤ held c.id r.by_user
      → (deliver_or_drop c payload r ≡ pushed c payload r)
        ⊎ (deliver_or_drop c payload r ≡ without clients c r)
  unfolding deliver
  deliver_or_drop_lem c payload r s e h =
      let open_chan : (r.chans c.id).closed ≡ false = ground (arith, s.single c.id) in
      elim (Bool-cases (ltb (length (r.chans c.id).queue) send_buffer_size)) [
        | inl room ↦ inl (rw (open_chan, room) refl)
        | inr full ↦ inr (rw (open_chan, full) (drop_client-without clients c r s e h))
      ]

  -- What is true behind offering the payload to each client as often as `times` says.
  pub record Outcome (payload : String) (times : ℕ → ℕ) (r r' : Registry) : Type 0 where
    pub sound : IsSound clients r'
    pub effect : (id : ℕ) → Effect payload id (times id) r r'

  deliver_or_drop-Outcome :
      (c : Client) (payload : String) (r : Registry)
      → IsSound clients r
      → get_elem? clients c.id ≡ some c
      → 1 ≤ held c.id r.by_user
      → Outcome payload (λ id. same id c) r (deliver_or_drop c payload r)
  deliver_or_drop-Outcome c payload r s e h = elim (deliver_or_drop_lem c payload r s e h) [
    | inl fits ↦
        rw fits
          (record { sound = pushed-IsSound c payload r s; effect = pushed-Effect c payload r })
    | inr slow ↦ rw slow (record {
      sound = without-IsSound clients c r s e h;
      effect = λ id. without-Effect c payload r id s e h;
    })
  ]

  -- All clients of the set are known, and stand in the registry as often as they stand here.
  pub record IsPending (set : List Client) (r : Registry) : Type 0 where
    pub known : All (λ c. get_elem? clients c.id ≡ some c) set
    pub waiting : (id : ℕ) → occurs id set ≤ held id r.by_user

  waiting_behind :
      (c : Client) (set : List Client) (payload : String) (r r' : Registry) (id : ℕ)
      → IsSound clients r
      → IsPending (c ∷ set) r
      → Effect payload id (same id c) r r'
      → occurs id set ≤ held id r'.by_user
  waiting_behind c set payload r r' id s p f = elim (Bool-cases (nat_eq c.id id)) [
    | inl here ↦
        let one : same id c ≡ 1 = rw here refl in omega (arith, one, p.waiting id, s.single id)
    | inr other ↦
        let none_here : same id c ≡ 0 = rw other refl in
        omega (arith, none_here, p.waiting id, f.others none_here)
  ]

  pub deliver_to-Outcome :
      (set : List Client) (payload : String) (r : Registry)
      → IsSound clients r
      → IsPending set r
      → Outcome payload (λ id. occurs id set) r (deliver_to set payload r)
  unfolding deliver_to
  deliver_to-Outcome [] payload r s p = record { sound = s; effect = λ id. untouched payload id r }
  deliver_to-Outcome (c ∷ set) payload r s p =
      let r' : Registry = deliver_or_drop c payload r in
      let at_least : 1 ≤ held c.id r.by_user =
        omega (arith, p.waiting c.id, ap {B = ℕ} (λ b. if b then 1 else 0) (nat_eq_refl c.id)) in
      let o : Outcome payload (λ id. same id c) r r' =
        deliver_or_drop-Outcome c payload r s p.known.0 at_least in
      let o' : Outcome payload (λ id. occurs id set) r' (deliver_to set payload r') =
        deliver_to-Outcome set payload r' o.sound (record {
          known = p.known.1;
          waiting = λ id. waiting_behind c set payload r r' id s p (o.effect id);
        }) in
      record {
        sound = o'.sound;
        effect = λ id.
            compose payload id (same id c) (occurs id set)
              (omega (arith, p.waiting id, s.single id)) (o.effect id) (o'.effect id);
      }
