-- ===== src/Backend/Hub/Counted.antt =====
-- The number of connections, counted by client.
use ytshare.Base.{
  ℕ, suc, ◌+◌, String, ◌≡◌, refl, sym, ◌∙◌, Bool-cases, inl, inr, some, List, [], ◌∷◌,
  if◌then◌else◌, ltb, leb, ◌&&◌, length, get_elem?, get_elem-bound, total, All, arith,
}
use ytshare.Backend.Hub.{Hub}
use ytshare.Backend.Hub.Clients.{Client, Chan, ByUser}
use ytshare.Backend.Hub.Index.{same, occurs, held, weigh, IsFiled, AllFiled}
use ytshare.Backend.Hub.Sound.{IsSound}
use ytshare.Backend.Hub.Safe.{IsSafe}

abbrev is_open : Chan → ℕ
is_open ch = if ch.closed then 0 else 1

-- The clients whose channels are open.
abbrev pub connected : Hub → ℕ
connected h = total (λ c. is_open (h.registry.chans c.id)) h.clients

total-add {ℓ} :
    {A : Type ℓ} (f g : A → ℕ) (xs : List A) → total (λ x. f x + g x) xs ≡ total f xs + total g xs
total-add f g [] = omega arith
total-add f g (x ∷ xs) = omega (arith, total-add f g xs)

total-zero {ℓ} : {A : Type ℓ} (xs : List A) → total (λ x. 0) xs ≡ 0
total-zero [] = refl
total-zero (x ∷ xs) = omega (arith, total-zero xs)

total-pointwise :
    (f g : Client → ℕ) (cs : List Client)
    → ((i : ℕ) (c : Client) → get_elem? cs i ≡ some c → f c ≡ g c)
    → total f cs ≡ total g cs
total-pointwise f g [] h = refl
total-pointwise f g (c ∷ cs) h =
    omega (arith, h 0 c refl, total-pointwise f g cs (λ i d e. h (suc i) d e))

-- Clients are numbered by position, from `k`.
abbrev IsNumbered : ℕ → List Client → Type 0
IsNumbered k cs = (i : ℕ) (c : Client) → get_elem? cs i ≡ some c → c.id ≡ k + i

total-same :
    (k : ℕ) (d : Client) (cs : List Client)
    → IsNumbered k cs
    → total (λ c. same c.id d) cs ≡ (if leb k d.id && ltb d.id (k + length cs) then 1 else 0)
total-same k d [] h = ground arith
total-same k d (c ∷ cs) h =
    ground (arith, h 0 c refl, total-same (suc k) d cs (λ i e p. omega (arith, h (suc i) e p)))

module _ (clients : List Client) (numbered : IsNumbered 0 clients) where
  total-occurs :
      (key : String) (set : List Client)
      → All (IsFiled clients key) set
      → total (λ c. occurs c.id set) clients ≡ length set
  total-occurs key [] f = total-zero clients
  total-occurs key (d ∷ set) ((genuine, _), f) = ground (
    arith,
    total-add (λ c. same c.id d) (λ c. occurs c.id set) clients,
    total-same 0 d clients numbered,
    get_elem-bound clients d.id d genuine,
    total-occurs key set f,
  )

  total-held : (l : ByUser) → AllFiled clients l → total (λ c. held c.id l) clients ≡ weigh length l
  total-held [] f = total-zero clients
  total-held ((key, set) ∷ l) (g, f) = omega (
    arith,
    total-add (λ c. occurs c.id set) (λ c. held c.id l) clients,
    total-occurs key set g,
    total-held l f,
  )

pub count-connected : (h : Hub) → IsSafe h → h.registry.count ≡ connected h
count-connected h s = elim (Bool-cases h.stopped) [
  | inl ended ↦
      s.emptied ended
      ∙ sym (
          total-pointwise (λ c. is_open (h.registry.chans c.id)) (λ _. 0) h.clients
            (λ i c e. ground (arith, (s.inbox i c e).over ended))
          ∙ total-zero h.clients)
  | inr on ↦
      let sound : IsSound h.clients h.registry = s.running on in
      sound.atomic
      ∙ (sound.counted
          ∙ (sym (
                total-held h.clients (λ i c e. omega (arith, s.numbered i c e)) h.registry.by_user
                  sound.filed)
              ∙ total-pointwise (λ c. held c.id h.registry.by_user)
                  (λ c. is_open (h.registry.chans c.id)) h.clients
                  (λ i c e. ground (arith, (s.inbox i c e).live on))))
]
