-- ===== src/Backend/Hub/Sound.antt =====
-- What the registry keeps, and what dropping a client does to it.
use ytshare.Base.{
  ℕ, ◌+◌, ◌-◌, ◌≤◌, String, ◌≡◌, ◌≢◌, refl, sym, ap, ◌∙◌, Bool, true, false, Bool-cases, inl, inr,
  none, some, Option-cases, List, [], ◌∷◌, if◌then◌else◌, nat_eq, length, get_elem?, All, arith,
  ◌==◌, eq_iff,
}
use ytshare.Backend.Hub.Clients.{
  Client, Registry, ByUser, lookup, member, remove, set_at, unlinked, set_chan, close_send, dropped,
  drop_client,
}
use ytshare.Backend.Hub.Index.{
  occurs, weigh, held, IsUnique, AllFiled, IsFiled, weigh-unlinked, IsUnique-unlinked,
  AllFiled-unlinked, AllFiled-set_at, All-remove, occurs-remove, length-remove, occurs-not_member,
  occurs-member,
}

abbrev pub bit : Bool → ℕ
bit true = 1
bit false = 0

-- The sets agree with the total and the clients, and a client that is in a set has an open channel,
-- and stands there once.
pub record IsSound (clients : List Client) (r : Registry) : Type 0 where
  pub unique : IsUnique r.by_user
  pub filed : AllFiled clients r.by_user
  pub calm : r.panicked ≡ false
  pub counted : r.total ≡ weigh length r.by_user
  pub atomic : r.count ≡ r.total
  pub single : (id : ℕ) → held id r.by_user + bit (r.chans id).closed ≤ 1

module _ (clients : List Client) where
  -- No set of another user has the client.
  pub occurs-other_key :
      (key : String) (set : List Client) (c : Client)
      → All (IsFiled clients key) set
      → get_elem? clients c.id ≡ some c
      → c.user_id ≢ key
      → occurs c.id set ≡ 0
  occurs-other_key key [] c f e ne = refl
  occurs-other_key key (d ∷ set) c ((genuine, under), f) e ne =
      elim (Bool-cases (nat_eq d.id c.id)) [
        | inl here ↦
            let ids : d.id ≡ c.id = ground arith in
            let users : d ≡ c = cc (genuine, e, ap (λ i. get_elem? clients i) ids) in
            absurd (ne (ap (λ x. x.user_id) (sym users) ∙ under))
        | inr other ↦ rw other (omega (arith, occurs-other_key key set c f e ne))
      ]

  held-no_key :
      (l : ByUser) (c : Client)
      → AllFiled clients l
      → get_elem? clients c.id ≡ some c
      → lookup c.user_id l ≡ none
      → held c.id l ≡ 0
  held-no_key [] c f e miss = refl
  held-no_key ((key, set) ∷ rest) c (g, f) e miss = elim (Bool-cases (key == c.user_id)) [
    | inl here ↦ absurd (ground arith)
    | inr other ↦
        let ne : c.user_id ≢ key = λ p. ground (arith, eq_iff key c.user_id) in
        let miss' : lookup c.user_id rest ≡ none = ground arith in
        omega (arith, occurs-other_key key set c g e ne, held-no_key rest c f e miss')
  ]

  -- A client is where its user's set says.
  pub held-set_at :
      (l : ByUser) (c : Client)
      → IsUnique l
      → AllFiled clients l
      → get_elem? clients c.id ≡ some c
      → held c.id l ≡ occurs c.id (set_at c.user_id l)
  held-set_at [] c u f e = refl
  held-set_at ((key, set) ∷ rest) c (new, u) (g, f) e = elim (Bool-cases (key == c.user_id)) [
    | inl here ↦
        let miss : lookup c.user_id rest ≡ none =
          ap (λ k. lookup k rest) (sym ((eq_iff key c.user_id).0 here)) ∙ new in
        rw here (omega (arith, held-no_key rest c f e miss))
    | inr other ↦
        let ne : c.user_id ≢ key = λ p. ground (arith, eq_iff key c.user_id) in
        rw other (omega (arith, occurs-other_key key set c g e ne, held-set_at rest c u f e))
  ]

  occurs-unknown :
      (key : String) (set : List Client) (id : ℕ)
      → All (IsFiled clients key) set
      → get_elem? clients id ≡ none
      → occurs id set ≡ 0
  occurs-unknown key [] id f e = refl
  occurs-unknown key (d ∷ set) id ((genuine, under), f) e = elim (Bool-cases (nat_eq d.id id)) [
    | inl here ↦
        let ids : d.id ≡ id = ground arith in
        absurd (cc (genuine, e, ap (λ i. get_elem? clients i) ids))
    | inr other ↦ rw other (omega (arith, occurs-unknown key set id f e))
  ]

  pub held-unknown :
      (l : ByUser) (id : ℕ) → AllFiled clients l → get_elem? clients id ≡ none → held id l ≡ 0
  held-unknown [] id f e = refl
  held-unknown ((key, set) ∷ rest) id (g, f) e =
      omega (arith, occurs-unknown key set id g e, held-unknown rest id f e)

  -- The registry after the client is dropped.
  abbrev pub without : Client → Registry → Registry
  without c r = record r {
    by_user = unlinked c.user_id (remove c.id (set_at c.user_id r.by_user)) r.by_user;
    total = r.total - 1;
    count = r.total - 1;
    chans = set_chan r.chans c.id (record (r.chans c.id) { closed = true });
  }

  member_of_held :
      (c : Client) (r : Registry)
      → IsSound clients r
      → get_elem? clients c.id ≡ some c
      → 1 ≤ held c.id r.by_user
      → member c.id (set_at c.user_id r.by_user) ≡ true
  member_of_held c r s e h = elim (Bool-cases (member c.id (set_at c.user_id r.by_user))) [
    | inl there ↦ there
    | inr not_there ↦ absurd (
        omega (
          arith,
          occurs-not_member c.id (set_at c.user_id r.by_user) not_there,
          held-set_at r.by_user c s.unique s.filed e,
        ))
  ]

  open_of_held :
      (id : ℕ) (r : Registry)
      → IsSound clients r
      → 1 ≤ held id r.by_user
      → (r.chans id).closed ≡ false
  open_of_held id r s h = ground (arith, s.single id)

  drop_client-set_at :
      (c : Client) (r : Registry) → drop_client c r ≡ dropped c (set_at c.user_id r.by_user) r
  unfolding drop_client
  drop_client-set_at c r = elim (Option-cases (lookup c.user_id r.by_user)) [
    | inl miss ↦ rw miss refl
    | inr (set, found) ↦ rw found refl
  ]

  pub drop_client-without :
      (c : Client) (r : Registry)
      → IsSound clients r
      → get_elem? clients c.id ≡ some c
      → 1 ≤ held c.id r.by_user
      → drop_client c r ≡ without c r
  unfolding close_send
  drop_client-without c r s e h =
      drop_client-set_at c r ∙ rw (member_of_held c r s e h, open_of_held c.id r s h) refl

  pub drop_client-absent :
      (c : Client) (r : Registry)
      → IsSound clients r
      → get_elem? clients c.id ≡ some c
      → held c.id r.by_user ≡ 0
      → drop_client c r ≡ r
  drop_client-absent c r s e h = elim (Bool-cases (member c.id (set_at c.user_id r.by_user))) [
    | inr not_there ↦ drop_client-set_at c r ∙ rw not_there refl
    | inl there ↦ absurd (
        omega (
          arith,
          occurs-member c.id (set_at c.user_id r.by_user) there,
          held-set_at r.by_user c s.unique s.filed e,
        ))
  ]

  -- How often a client stands in the sets behind the drop_client.
  pub held-without :
      (id : ℕ) (c : Client) (r : Registry)
      → IsSound clients r
      → get_elem? clients c.id ≡ some c
      → 1 ≤ held c.id r.by_user
      → held id (without c r).by_user + (if nat_eq c.id id then 1 else 0) ≡ held id r.by_user
  held-without id c r s e h =
      let set : List Client = set_at c.user_id r.by_user in
      omega (
        arith,
        weigh-unlinked (occurs id) c.user_id (remove c.id set) r.by_user refl,
        occurs-remove c.id id set (member_of_held c r s e h),
      )

  pub without-IsSound :
      (c : Client) (r : Registry)
      → IsSound clients r
      → get_elem? clients c.id ≡ some c
      → 1 ≤ held c.id r.by_user
      → IsSound clients (without c r)
  without-IsSound c r s e h =
      let set : List Client = set_at c.user_id r.by_user in
      record {
        unique = IsUnique-unlinked c.user_id (remove c.id set) r.by_user s.unique;
        filed =
            AllFiled-unlinked clients c.user_id (remove c.id set) r.by_user
              (All-remove (IsFiled clients c.user_id) c.id set
                (AllFiled-set_at clients c.user_id r.by_user s.filed))
              s.filed;
        calm = s.calm;
        counted = omega (
          arith,
          s.counted,
          weigh-unlinked length c.user_id (remove c.id set) r.by_user refl,
          length-remove c.id set (member_of_held c r s e h),
        );
        atomic = refl;
        single = λ id. ground (arith, held-without id c r s e h, s.single id);
      }
