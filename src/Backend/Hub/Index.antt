-- ===== src/Backend/Hub/Index.antt =====
-- The map from users to their clients.
use ytshare.Base.{
  ℕ, ◌+◌, ◌≤◌, String, ◌≡◌, refl, sym, ap, ◌∙◌, true, false, Bool-cases, inl, inr, none, some, List,
  [], ◌∷◌, if◌then◌else◌, nat_eq, length, get_elem?, total, All, arith, ◌==◌, eq_iff,
}
use ytshare.Backend.Hub.Clients.{
  Client, ByUser, lookup, put, delete, member, remove, set_at, unlinked,
}

-- Whether a client is the one with the number, as a number.
abbrev pub same : ℕ → Client → ℕ
same id c = if nat_eq c.id id then 1 else 0

-- How often a client stands in a set, and in all sets.
abbrev pub occurs : ℕ → List Client → ℕ
occurs id set = total (same id) set

abbrev pub weigh : (List Client → ℕ) → ByUser → ℕ
weigh w l = total (λ p. w p.1) l

abbrev pub held : ℕ → ByUser → ℕ
held id l = weigh (occurs id) l

-- No key stands twice.
abbrev pub IsUnique : ByUser → Type 0
IsUnique [] = Unit
IsUnique ((key, set) ∷ rest) = (lookup key rest ≡ none) × IsUnique rest

pub lookup-put :
    (u v : String) (s : List Client) (l : ByUser)
    → lookup v (put u s l) ≡ (if u == v then some s else lookup v l)
lookup-put u v s [] = refl
lookup-put u v s ((key, set) ∷ rest) =
    ground (arith, eq_iff key u, eq_iff key v, eq_iff u v, lookup-put u v s rest)

lookup-delete :
    (u v : String) (l : ByUser)
    → IsUnique l
    → lookup v (delete u l) ≡ (if u == v then none else lookup v l)
lookup-delete u v [] h = ground arith
lookup-delete u v ((key, set) ∷ rest) (new, h) = elim (Bool-cases (key == u)) [
  | inl here ↦ elim (Bool-cases (u == v)) [
    | inl same_key ↦
        let e : v ≡ key = sym ((eq_iff key u).0 here ∙ (eq_iff u v).0 same_key) in
        rw (here, same_key) (ap (λ k. lookup k rest) e ∙ new)
    | inr other ↦ ground (arith, eq_iff key u, eq_iff key v, eq_iff u v)
  ]
  | inr not_here ↦ ground (arith, eq_iff key u, eq_iff key v, eq_iff u v, lookup-delete u v rest h)
]

pub weigh-put :
    (w : List Client → ℕ) (u : String) (s : List Client) (l : ByUser)
    → w [] ≡ 0
    → weigh w (put u s l) + w (set_at u l) ≡ weigh w l + w s
weigh-put w u s [] e = omega arith
weigh-put w u s ((key, set) ∷ rest) e = elim (Bool-cases (key == u)) [
  | inl here ↦ rw here (omega arith)
  | inr not_here ↦ rw not_here (omega (arith, weigh-put w u s rest e))
]

weigh-delete :
    (w : List Client → ℕ) (u : String) (l : ByUser)
    → w [] ≡ 0
    → weigh w (delete u l) + w (set_at u l) ≡ weigh w l
weigh-delete w u [] e = omega arith
weigh-delete w u ((key, set) ∷ rest) e = elim (Bool-cases (key == u)) [
  | inl here ↦ rw here (omega arith)
  | inr not_here ↦ rw not_here (omega (arith, weigh-delete w u rest e))
]

pub weigh-unlinked :
    (w : List Client → ℕ) (u : String) (s : List Client) (l : ByUser)
    → w [] ≡ 0
    → weigh w (unlinked u s l) + w (set_at u l) ≡ weigh w l + w s
weigh-unlinked w u [] l e = omega (arith, weigh-delete w u l e)
weigh-unlinked w u (c ∷ s) l e = weigh-put w u (c ∷ s) l e

lookup-none-put :
    (key u : String) (s : List Client) (l : ByUser)
    → (key == u) ≡ false
    → lookup key l ≡ none
    → lookup key (put u s l) ≡ none
lookup-none-put key u s l ne e = ground (arith, lookup-put u key s l, eq_iff u key, eq_iff key u)

pub IsUnique-put : (u : String) (s : List Client) (l : ByUser) → IsUnique l → IsUnique (put u s l)
IsUnique-put u s [] h = (refl, tt)
IsUnique-put u s ((key, set) ∷ rest) (new, h) = elim (Bool-cases (key == u)) [
  | inl here ↦ rw here (new, h)
  | inr not_here ↦ rw not_here (lookup-none-put key u s rest not_here new, IsUnique-put u s rest h)
]

IsUnique-delete : (u : String) (l : ByUser) → IsUnique l → IsUnique (delete u l)
IsUnique-delete u [] h = tt
IsUnique-delete u ((key, set) ∷ rest) (new, h) = elim (Bool-cases (key == u)) [
  | inl here ↦ rw here h
  | inr not_here ↦
      rw not_here (ground (arith, lookup-delete u key rest h), IsUnique-delete u rest h)
]

pub occurs-remove :
    (id x : ℕ) (s : List Client)
    → member id s ≡ true
    → occurs x (remove id s) + (if nat_eq id x then 1 else 0) ≡ occurs x s
occurs-remove id x [] h = cc
occurs-remove id x (c ∷ s) h = ground (arith, occurs-remove id x s)

pub length-remove :
    (id : ℕ) (s : List Client) → member id s ≡ true → length (remove id s) + 1 ≡ length s
length-remove id [] h = cc
length-remove id (c ∷ s) h = ground (arith, length-remove id s)

pub occurs-not_member : (id : ℕ) (s : List Client) → member id s ≡ false → occurs id s ≡ 0
occurs-not_member id [] h = refl
occurs-not_member id (c ∷ s) h = ground (arith, occurs-not_member id s)

pub occurs-member : (id : ℕ) (s : List Client) → member id s ≡ true → 1 ≤ occurs id s
occurs-member id [] h = cc
occurs-member id (c ∷ s) h = ground (arith, occurs-member id s)

pub set_at-put :
    (u v : String) (s : List Client) (l : ByUser)
    → set_at v (put u s l) ≡ (if u == v then s else set_at v l)
set_at-put u v s l = ground (arith, lookup-put u v s l)

pub set_at-unlinked :
    (u v : String) (s : List Client) (l : ByUser)
    → IsUnique l
    → set_at v (unlinked u s l) ≡ (if u == v then s else set_at v l)
set_at-unlinked u v [] l h = ground (arith, lookup-delete u v l h)
set_at-unlinked u v (c ∷ s) l h = set_at-put u v (c ∷ s) l

pub IsUnique-unlinked :
    (u : String) (s : List Client) (l : ByUser) → IsUnique l → IsUnique (unlinked u s l)
IsUnique-unlinked u [] l h = IsUnique-delete u l h
IsUnique-unlinked u (c ∷ s) l h = IsUnique-put u (c ∷ s) l h

-- The client is the one of its number, and stands under its user.
abbrev pub IsFiled : List Client → String → Client → Type 0
IsFiled clients key c = (get_elem? clients c.id ≡ some c) × (c.user_id ≡ key)

abbrev pub AllFiled : List Client → ByUser → Type 0
AllFiled clients l = All (λ p. All (IsFiled clients p.0) p.1) l

pub AllFiled-put :
    (clients : List Client) (u : String) (s : List Client) (l : ByUser)
    → All (IsFiled clients u) s
    → AllFiled clients l
    → AllFiled clients (put u s l)
AllFiled-put clients u s [] f h = (f, tt)
AllFiled-put clients u s ((key, set) ∷ rest) f (g, h) = elim (Bool-cases (key == u)) [
  | inl here ↦ rw here (rw ((eq_iff key u).0 here) f, h)
  | inr not_here ↦ rw not_here (g, AllFiled-put clients u s rest f h)
]

AllFiled-delete :
    (clients : List Client) (u : String) (l : ByUser)
    → AllFiled clients l
    → AllFiled clients (delete u l)
AllFiled-delete clients u [] h = tt
AllFiled-delete clients u ((key, set) ∷ rest) (g, h) = elim (Bool-cases (key == u)) [
  | inl here ↦ rw here h
  | inr not_here ↦ rw not_here (g, AllFiled-delete clients u rest h)
]

pub AllFiled-unlinked :
    (clients : List Client) (u : String) (s : List Client) (l : ByUser)
    → All (IsFiled clients u) s
    → AllFiled clients l
    → AllFiled clients (unlinked u s l)
AllFiled-unlinked clients u [] l f h = AllFiled-delete clients u l h
AllFiled-unlinked clients u (c ∷ s) l f h = AllFiled-put clients u (c ∷ s) l f h

pub AllFiled-set_at :
    (clients : List Client) (u : String) (l : ByUser)
    → AllFiled clients l
    → All (IsFiled clients u) (set_at u l)
AllFiled-set_at clients u [] h = tt
AllFiled-set_at clients u ((key, set) ∷ rest) (g, h) = elim (Bool-cases (key == u)) [
  | inl here ↦ rw here (rw (sym ((eq_iff key u).0 here)) g)
  | inr not_here ↦ rw not_here (AllFiled-set_at clients u rest h)
]

pub All-remove {ℓ} :
    (P : Client → Type ℓ) (id : ℕ) (s : List Client) → All P s → All P (remove id s)
All-remove P id [] h = tt
All-remove P id (c ∷ s) (g, h) = elim (Bool-cases (nat_eq c.id id)) [
  | inl here ↦ rw here h
  | inr not_here ↦ rw not_here (g, All-remove P id s h)
]
