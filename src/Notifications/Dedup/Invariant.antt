-- ===== src/Notifications/Dedup/Invariant.antt =====
-- The set and the queue of seen ids agree, and the queue never grows past its cap.
use ytshare.Base.{
  suc, String, ◌≡◌, refl, ◌≢◌, ◌≤◌, ◌||◌, Bool, false, List, [], ◌∷◌, ◌++◌, length, contains, ltb,
  arith, eq_iff, ltb-false→le, Bool-cases, inl, inr, length-append,
}
use ytshare.Notifications.Dedup.{
  Seen, seen_event_cap, no_seen, evict, shift_evict, push_seen, remember_seen,
}

-- No id stands twice in a list.
abbrev pub IsDistinct : List String → Type 0
IsDistinct [] = Unit
IsDistinct (x ∷ xs) = (contains xs x ≡ false) × IsDistinct xs

pub record IsWellFormed (s : Seen) : Type 0 where
  pub agrees : (x : String) → s.seen_ids x ≡ contains s.seen_order x
  pub distinct : IsDistinct s.seen_order
  pub bounded : length s.seen_order ≤ seen_event_cap
  pub named : contains s.seen_order "" ≡ false

pub contains-append :
    (xs ys : List String) (x : String) → contains (xs ++ ys) x ≡ (contains xs x || contains ys x)
contains-append [] ys x = refl
contains-append (y ∷ xs) ys x = ground (arith, contains-append xs ys x)

IsDistinct-append :
    (xs : List String) (id : String)
    → IsDistinct xs
    → contains xs id ≡ false
    → IsDistinct (xs ++ id ∷ [])
IsDistinct-append [] id d h = ground arith
IsDistinct-append (x ∷ xs) id d h =
    ground
      (arith, IsDistinct-append xs id, contains-append xs (id ∷ []) x, eq_iff x id, eq_iff id x)

-- Before the eviction the queue may hold one id too many.
record IsFilled (s : Seen) : Type 0 where
  agrees : (x : String) → s.seen_ids x ≡ contains s.seen_order x
  distinct : IsDistinct s.seen_order
  bounded : length s.seen_order ≤ suc seen_event_cap
  named : contains s.seen_order "" ≡ false

push_seen-IsFilled :
    {s : Seen} (id : String)
    → id ≢ ""
    → IsWellFormed s
    → s.seen_ids id ≡ false
    → IsFilled (push_seen s id)
push_seen-IsFilled {s} id ne wf new = record {
  agrees = λ x. ground (arith, wf.agrees x, contains-append s.seen_order (id ∷ []) x);
  distinct = IsDistinct-append s.seen_order id wf.distinct (ground (arith, wf.agrees id));
  bounded = omega (arith, length-append {0} s.seen_order (id ∷ []), wf.bounded);
  named = ground (arith, wf.named, contains-append s.seen_order (id ∷ []) "", eq_iff "" id);
}

shift_evict-IsWellFormed :
    (old : String) (rest : List String) (ids : String → Bool)
    → IsFilled (record { seen_ids = ids; seen_order = old ∷ rest })
    → IsWellFormed (shift_evict (old ∷ rest) (record { seen_ids = ids; seen_order = old ∷ rest }))
shift_evict-IsWellFormed old rest ids f = record {
  agrees = λ x.
      ground (arith, f.agrees x, f.named, f.distinct, eq_iff x old, eq_iff old "", eq_iff "" old);
  distinct = f.distinct.1;
  bounded = omega (arith, f.bounded);
  named = ground (arith, f.named);
}

evict-IsWellFormed :
    (order : List String) (ids : String → Bool)
    → IsFilled (record { seen_ids = ids; seen_order = order })
    → IsWellFormed (evict (record { seen_ids = ids; seen_order = order }))
unfolding evict
evict-IsWellFormed [] ids f = record {
  agrees = f.agrees;
  distinct = f.distinct;
  bounded = omega arith;
  named = f.named;
}
evict-IsWellFormed (old ∷ rest) ids f = elim (Bool-cases (ltb seen_event_cap (suc (length rest)))) [
  | inl full ↦ rw full (shift_evict-IsWellFormed old rest ids f)
  | inr room ↦ rw room (record {
    agrees = f.agrees;
    distinct = f.distinct;
    bounded = ltb-false→le _ _ room;
    named = f.named;
  })
]

pub no_seen-IsWellFormed : IsWellFormed no_seen
no_seen-IsWellFormed = record {
  agrees = λ x. refl;
  distinct = tt;
  bounded = omega arith;
  named = refl;
}

-- From well-formed refs, remembering a non-empty id, new or not, keeps the set and the queue in
-- agreement, the queue free of repetitions and within its cap.
pub remember_seen-IsWellFormed :
    (s : Seen) (id : String) → id ≢ "" → IsWellFormed s → IsWellFormed (remember_seen s id).0
unfolding remember_seen
remember_seen-IsWellFormed s id ne wf = elim (Bool-cases (s.seen_ids id)) [
  | inl old ↦ rw old wf
  | inr new ↦ rw new (evict-IsWellFormed _ _ (push_seen-IsFilled id ne wf new))
]
