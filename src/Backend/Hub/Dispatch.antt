-- ===== src/Backend/Hub/Dispatch.antt =====
-- Which clients a message is offered to.
use ytshare.Base.{
  ℕ, ◌≤◌, String, ◌≡◌, refl, sym, ap, ◌∙◌, Bool, ◌||◌, Bool-cases, inl, inr, some, List, [], ◌∷◌,
  ◌++◌, if◌then◌else◌, get_elem?, total-append, All, All-append, arith, ◌==◌, eq_iff,
}
use mathlib.Core.Path.{subst}
use ytshare.Backend.Hub.Clients.{
  Client, Registry, ByUser, DispatchMsg, set_at, nil_uuid, deliver_to, deliver_to_all, dispatch,
}
use ytshare.Backend.Hub.Index.{same, occurs, held, IsFiled, AllFiled, AllFiled-set_at, weigh-put}
use ytshare.Backend.Hub.Sound.{IsSound, held-set_at, occurs-other_key}
use ytshare.Backend.Hub.Loop.{Effect, Outcome, deliver_to-Outcome}

members : ByUser → List Client
members [] = []
members ((key, set) ∷ rest) = set ++ members rest

-- Whether a message is for the connections of a user.
abbrev pub addressed : DispatchMsg → String → Bool
addressed msg user = msg.recipient == nil_uuid || msg.recipient == user

deliver_to-append :
    (xs ys : List Client) (payload : String) (r : Registry)
    → deliver_to (xs ++ ys) payload r ≡ deliver_to ys payload (deliver_to xs payload r)
unfolding deliver_to
deliver_to-append [] ys payload r = refl
deliver_to-append (c ∷ xs) ys payload r = deliver_to-append xs ys payload _

deliver_to_all-members :
    (l : ByUser) (payload : String) (r : Registry)
    → deliver_to_all l payload r ≡ deliver_to (members l) payload r
unfolding deliver_to_all deliver_to members
deliver_to_all-members [] payload r = refl
deliver_to_all-members ((key, set) ∷ rest) payload r =
    deliver_to_all-members rest payload (deliver_to set payload r)
    ∙ sym (deliver_to-append set (members rest) payload r)

occurs-members : (id : ℕ) (l : ByUser) → occurs id (members l) ≡ held id l
unfolding members
occurs-members id [] = refl
occurs-members id ((key, set) ∷ rest) =
    omega (arith, total-append (same id) set (members rest), occurs-members id rest)

module _ (clients : List Client) where
  abbrev pub Known : Client → Type 0
  Known c = get_elem? clients c.id ≡ some c

  Known-of_filed :
      (key : String) (set : List Client) → All (IsFiled clients key) set → All Known set
  Known-of_filed key [] f = tt
  Known-of_filed key (c ∷ set) ((genuine, _), f) = (genuine, Known-of_filed key set f)

  Known-members : (l : ByUser) → AllFiled clients l → All Known (members l)
  unfolding members
  Known-members [] f = tt
  Known-members ((key, set) ∷ rest) (g, f) =
      All-append Known set (members rest) (Known-of_filed key set g) (Known-members rest f)

  pub occurs-set_at-le :
      (id : ℕ) (user : String) (l : ByUser) → occurs id (set_at user l) ≤ held id l
  occurs-set_at-le id user l = omega (arith, weigh-put (occurs id) user [] l refl)

  -- How often a message is offered to the client with the number.
  abbrev pub times : DispatchMsg → Registry → ℕ → ℕ
  times msg r id =
      if msg.recipient == nil_uuid
      then held id r.by_user
      else occurs id (set_at msg.recipient r.by_user)

  along :
      (payload : String) (f g : ℕ → ℕ) (r r' : Registry)
      → ((id : ℕ) → f id ≡ g id)
      → Outcome clients payload f r r'
      → Outcome clients payload g r r'
  along payload f g r r' h o = record {
    sound = o.sound;
    effect = λ id. subst (λ k. Effect payload id k r r') (h id) (o.effect id);
  }

  pub dispatch-Outcome :
      (msg : DispatchMsg) (r : Registry)
      → IsSound clients r
      → Outcome clients msg.payload (times msg r) r (dispatch msg r)
  unfolding dispatch
  dispatch-Outcome msg r s = elim (Bool-cases (msg.recipient == nil_uuid)) [
    | inl to_all ↦
        rw (to_all, deliver_to_all-members r.by_user msg.payload r)
          (along msg.payload (λ id. occurs id (members r.by_user)) (times msg r) r _
            (λ id. occurs-members id r.by_user ∙ rw to_all refl)
            (deliver_to-Outcome clients (members r.by_user) msg.payload r s (record {
              known = Known-members r.by_user s.filed;
              waiting = λ id. omega (arith, occurs-members id r.by_user);
            })))
    | inr to_one ↦ rw to_one (
        along msg.payload (λ id. occurs id (set_at msg.recipient r.by_user)) (times msg r) r _
          (λ id. rw to_one refl)
          (deliver_to-Outcome clients (set_at msg.recipient r.by_user) msg.payload r s (record {
            known =
                Known-of_filed msg.recipient (set_at msg.recipient r.by_user)
                  (AllFiled-set_at clients msg.recipient r.by_user s.filed);
            waiting = λ id. occurs-set_at-le id msg.recipient r.by_user;
          })))
  ]

  -- A known client is offered what is addressed to its user.
  pub times-addressed :
      (msg : DispatchMsg) (r : Registry) (c : Client)
      → IsSound clients r
      → Known c
      → times msg r c.id ≡ (if addressed msg c.user_id then held c.id r.by_user else 0)
  times-addressed msg r c s e = elim (Bool-cases (msg.recipient == nil_uuid)) [
    | inl to_all ↦ rw to_all refl
    | inr to_one ↦ elim (Bool-cases (msg.recipient == c.user_id)) [
      | inl to_it ↦
          rw (to_one, to_it)
            (ap (λ u. occurs c.id (set_at u r.by_user)) ((eq_iff msg.recipient c.user_id).0 to_it)
              ∙ sym (held-set_at clients r.by_user c s.unique s.filed e))
      | inr to_other ↦
          rw (to_one, to_other)
            (occurs-other_key clients msg.recipient (set_at msg.recipient r.by_user) c
              (AllFiled-set_at clients msg.recipient r.by_user s.filed) e
              (λ p. ground (arith, eq_iff msg.recipient c.user_id)))
    ]
  ]
