-- ===== src/Notifications/Dedup/Window.antt =====
-- Against an ideal client that keeps every id that it ever accepted: the two refs hold exactly the
-- last `seen_event_cap` accepted ids.
use mathlib.Core.List.{tail}
use ytshare.Base.{
  ℕ, zero, suc, String, ◌≡◌, refl, ap, ◌∙◌, ◌≢◌, ◌≤◌, ◌-◌, Bool, true, false, List, [], ◌∷◌, ◌++◌,
  length, drop, contains, ltb, arith, Bool-cases, inl, inr, length-append, length-drop, drop-append,
  if◌then◌else◌, lt→ltb, ltb→lt, ltb-false→le, le→ltb-false, ◌≡⟨◌⟩◌, ◌∎,
}
use ytshare.Notifications.Dedup.{
  Seen, seen_event_cap, no_seen, evict, push_seen, remember_seen, remember_all,
}
use ytshare.Notifications.Dedup.Invariant.{
  IsWellFormed, no_seen-IsWellFormed, remember_seen-IsWellFormed,
}

-- The last entries of a history, oldest first.
abbrev pub window : List String → List String
window h = drop (length h - seen_event_cap) h

-- The ideal client: an id is new unless it is among the last accepted ones.
abbrev pub accept : List String → String → List String × Bool
accept h id = if contains (window h) id then (h, false) else (h ++ id ∷ [], true)

unfoldable pub accept_all : List String → List String → List String × List Bool
accept_all h [] = (h, [])
accept_all h (id ∷ ids) =
    let (h', fresh) = accept h id in
    let (last, answers) = accept_all h' ids in (last, fresh ∷ answers)

drop-suc {ℓ} : {A : Type ℓ} (k : ℕ) (xs : List A) → drop (suc k) xs ≡ tail (drop k xs)
drop-suc zero [] = refl
drop-suc zero (x ∷ xs) = refl
drop-suc (suc k) [] = refl
drop-suc (suc k) (x ∷ xs) = drop-suc k xs

evict-seen_order :
    (ids : String → Bool) (order : List String)
    → (evict (record { seen_ids = ids; seen_order = order })).seen_order
      ≡ (if ltb seen_event_cap (length order) then tail order else order)
unfolding evict
evict-seen_order ids [] = ground arith
evict-seen_order ids (x ∷ xs) = ground arith

pub window_small : (h : List String) → length h ≤ seen_event_cap → window h ≡ h
window_small h small = rw (zero_of h small) refl
  where
    zero_of : (h : List String) → length h ≤ seen_event_cap → length h - seen_event_cap ≡ 0
    zero_of h small = omega arith

window_full :
    (h : List String) (id : String)
    → seen_event_cap ≤ length h
    → window (h ++ id ∷ []) ≡ tail (window h ++ id ∷ [])
window_full h id full =
    window (h ++ id ∷ [])
    ≡⟨ ap (λ k. drop k (h ++ id ∷ [])) longer ⟩ drop (suc k) (h ++ id ∷ [])
    ≡⟨ drop-suc k (h ++ id ∷ []) ⟩ tail (drop k (h ++ id ∷ []))
    ≡⟨ ap tail (drop-append k h (id ∷ []) (omega arith)) ⟩ tail (window h ++ id ∷ []) ∎
  where
    k : ℕ
    k = length h - seen_event_cap

    longer : length (h ++ id ∷ []) - seen_event_cap ≡ suc k
    longer = omega (arith, length-append {0} h (id ∷ []))

-- Evicting the oldest id, if the queue is too long, moves the window by one.
evict-window :
    (ids : String → Bool) (h : List String) (id : String)
    → (evict (record { seen_ids = ids; seen_order = window h ++ id ∷ [] })).seen_order
      ≡ window (h ++ id ∷ [])
evict-window ids h id = elim (Bool-cases (ltb (length h) seen_event_cap)) [
  | inl room ↦ rw (evict-seen_order ids (window h ++ id ∷ [])) (
      rw (window_small h (omega (arith, ltb→lt _ _ room))) (
        rw
          (window_small (h ++ id ∷ [])
            (omega (arith, length-append {0} h (id ∷ []), ltb→lt _ _ room)))
          (rw (
            le→ltb-false seen_event_cap (length (h ++ id ∷ []))
              (omega (arith, length-append {0} h (id ∷ []), ltb→lt _ _ room))))))
  | inr full ↦ rw (evict-seen_order ids (window h ++ id ∷ [])) (
      rw (window_full h id (ltb-false→le _ _ full)) (
        rw (
          lt→ltb seen_event_cap (length (window h ++ id ∷ [])) (
            omega (
              arith,
              length-append {0} (window h) (id ∷ []),
              length-drop {0} (length h - seen_event_cap) h,
              ltb-false→le _ _ full,
            )))))
]

-- The refs represent a history.
pub record Tracks (s : Seen) (h : List String) : Type 0 where
  pub valid : IsWellFormed s
  pub order : s.seen_order ≡ window h

pub no_seen-Tracks : Tracks no_seen []
no_seen-Tracks = record { valid = no_seen-IsWellFormed; order = refl }

pub remember_seen-Tracks :
    (s : Seen) (h : List String) (id : String)
    → id ≢ ""
    → Tracks s h
    → Tracks (remember_seen s id).0 (accept h id).0 × ((remember_seen s id).1 ≡ (accept h id).1)
unfolding remember_seen
remember_seen-Tracks s h id ne t = elim (Bool-cases (contains (window h) id)) [
  | inl old ↦ rw (agree, old) (t, refl)
  | inr new ↦
      let now : IsWellFormed (evict (push_seen s id)) =
        rw (agree ∙ new) at (remember_seen-IsWellFormed s id ne t.valid) in
      rw (agree, new) (record { valid = now; order = rw t.order (evict-window _ h id) }, refl)
]
  where
    agree : s.seen_ids id ≡ contains (window h) id
    agree = t.valid.agrees id ∙ ap (λ l. contains l id) t.order

-- All the ids of a list are non-empty.
abbrev pub AreNamed : List String → Type 0
AreNamed [] = Unit
AreNamed (id ∷ ids) = (id ≢ "") × AreNamed ids

-- Over any sequence of non-empty ids the bounded refs answer as the whole history would: an id is
-- taken for new exactly if it is not among the last 256 ids accepted before it. The queue is then
-- again those last ids, and well-formed.
pub remember_all-Tracks :
    (ids : List String) (s : Seen) (h : List String)
    → AreNamed ids
    → Tracks s h
    → Tracks (remember_all s ids).0 (accept_all h ids).0
      × ((remember_all s ids).1 ≡ (accept_all h ids).1)
unfolding remember_all accept_all
remember_all-Tracks [] s h _ t = (t, refl)
remember_all-Tracks (id ∷ ids) s h (ne, named) t =
    let (t', same) = remember_seen-Tracks s h id ne t in
    let (last, answers) = remember_all-Tracks ids (remember_seen s id).0 (accept h id).0 named t' in
    (last, rw (same, answers))
