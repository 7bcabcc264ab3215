-- ===== src/Notifications/Dedup/Replay.antt =====
-- How long an id that was accepted is recognised again.
use ytshare.Base.{
  ℕ, suc, String, ◌≡◌, refl, sym, ap, ◌∙◌, ◌≢◌, ◌≤◌, ◌<◌, ◌-◌, true, false, ◌||◌, List, [], ◌∷◌,
  ◌++◌, length, drop, contains, arith, Bool-cases, inl, inr, length-append, drop-append, eq_refl,
  append_assoc, append-nil, All, ◌==◌, eq_iff, zero, ◌+◌,
}
use ytshare.Notifications.Dedup.{Seen, seen_event_cap, remember_seen, remember_all}
use ytshare.Notifications.Dedup.Invariant.{IsWellFormed, contains-append}
use ytshare.Notifications.Dedup.Window.{
  window, window_small, accept, accept_all, Tracks, AreNamed, remember_seen-Tracks,
  remember_all-Tracks,
}

-- Well-formed refs represent the history that is their own queue.
pub Tracks-seen_order : (s : Seen) → IsWellFormed s → Tracks s s.seen_order
Tracks-seen_order s wf = record { valid = wf; order = sym (window_small s.seen_order wf.bounded) }

-- Accepting only ever appends, and at most one id for each call.
accept_all_appends :
    (h ids : List String)
    → (more : List String) × ((accept_all h ids).0 ≡ h ++ more) × (length more ≤ length ids)
unfolding accept_all
accept_all_appends h [] = ([], sym (append-nil h), omega arith)
accept_all_appends h (id ∷ ids) = elim (Bool-cases (contains (window h) id)) [
  | inl old ↦ let (more, same, short) = accept_all_appends h ids in (more, rw old same, omega arith)
  | inr new ↦
      let (more, same, short) = accept_all_appends (h ++ id ∷ []) ids in
      (id ∷ more, rw new (same ∙ append_assoc h (id ∷ []) more), omega arith)
]

contains-window :
    (h : List String) (id : String) (more : List String)
    → length more < seen_event_cap
    → contains (window (h ++ id ∷ more)) id ≡ true
contains-window h id more short =
    rw
      (drop-append (length (h ++ id ∷ more) - seen_event_cap) h (id ∷ more)
        (omega (arith, length-append {0} h (id ∷ more))))
      (ground (
        arith,
        contains-append (drop (length (h ++ id ∷ more) - seen_event_cap) h) (id ∷ more) id,
        eq_refl id,
      ))

accepted_known :
    (h : List String) (id : String) (ids : List String)
    → length ids < seen_event_cap
    → contains (window (accept_all (h ++ id ∷ []) ids).0) id ≡ true
accepted_known h id ids short =
    let (more, appended, few) = accept_all_appends (h ++ id ∷ []) ids in
    rw (appended, append_assoc h (id ∷ []) more) (contains-window h id more (omega arith))

-- On well-formed refs, an accepted id is refused when it comes again, if fewer than 256 non-empty
-- ids, new or not, came in between.
pub remember_seen-remembers :
    (s : Seen) (id : String) (ids : List String)
    → IsWellFormed s
    → id ≢ ""
    → AreNamed ids
    → (remember_seen s id).1 ≡ true
    → length ids < seen_event_cap
    → (remember_seen (remember_all (remember_seen s id).0 ids).0 id).1 ≡ false
remember_seen-remembers s id ids wf ne named fresh short =
    let h : List String = s.seen_order in
    let (t₁, same₁) = remember_seen-Tracks s h id ne (Tracks-seen_order s wf) in
    let (t₂, _) = remember_all-Tracks ids (remember_seen s id).0 (accept h id).0 named t₁ in
    let (_, same₃) =
      remember_seen-Tracks (remember_all (remember_seen s id).0 ids).0
        (accept_all (accept h id).0 ids).0 id ne t₂ in
    let new : contains (window h) id ≡ false = fresh_new h (sym same₁ ∙ fresh) in
    same₃ ∙ refused (accept_all (accept h id).0 ids).0 (rw new (accepted_known h id ids short))
  where
    fresh_new : (h : List String) → (accept h id).1 ≡ true → contains (window h) id ≡ false
    fresh_new h e = ground arith

    refused : (h : List String) → contains (window h) id ≡ true → (accept h id).1 ≡ false
    refused h e = rw e

contains-drop :
    (k : ℕ) (xs : List String) (x : String) → contains (drop k xs) x ≡ true → contains xs x ≡ true
contains-drop zero xs x h = h
contains-drop (suc k) [] x h = h
contains-drop (suc k) (y ∷ xs) x h = ground (arith, contains-drop k xs x h)

-- The ids of a batch that are not in `h` end up behind it, none left out.
accept_all-batch :
    (h more ids : List String)
    → All (λ id. contains h id ≡ false) ids
    → (more' : List String) × ((accept_all (h ++ more) ids).0 ≡ h ++ more')
      × (length more' ≤ length more + length ids)
      × ((x : String) → (contains more x || contains ids x) ≡ true → contains more' x ≡ true)
unfolding accept_all
accept_all-batch h more [] _ = (more, refl, omega arith, λ x e. ground arith)
accept_all-batch h more (id ∷ ids) (out, outs) =
    elim (Bool-cases (contains (window (h ++ more)) id)) [
      | inl old ↦
          let (more', same, short, all) = accept_all-batch h more ids outs in
          let here : contains more id ≡ true = ground (
            arith,
            contains-drop (length (h ++ more) - seen_event_cap) (h ++ more) id old,
            contains-append h more id,
          ) in
          (more', rw old same, omega arith, λ x e. all x (known x here e))
      | inr new ↦
          let (more', same, short, all) = accept_all-batch h (more ++ id ∷ []) ids outs in
          (
            more',
            rw (new, append_assoc h more (id ∷ [])) same,
            omega (arith, length-append {0} more (id ∷ [])),
            λ x e. all x (ground (arith, contains-append more (id ∷ []) x)),
          )
    ]
  where
    known :
        (x : String)
        → contains more id ≡ true
        → (contains more x || (x == id || contains ids x)) ≡ true
        → (contains more x || contains ids x) ≡ true
    known x here e = elim (Bool-cases (x == id)) [
      | inl same ↦ rw ((eq_iff x id).0 same) (ground arith)
      | inr other ↦ ground arith
    ]

contains-window_of_suffix :
    (h more : List String) (x : String)
    → length more ≤ seen_event_cap
    → contains more x ≡ true
    → contains (window (h ++ more)) x ≡ true
contains-window_of_suffix h more x short e =
    rw
      (drop-append (length (h ++ more) - seen_event_cap) h more
        (omega (arith, length-append {0} h more)))
      (ground (arith, contains-append (drop (length (h ++ more) - seen_event_cap) h) more x))

-- After a batch of at most 256 ids that were not known, all of them are known.
pub remember_all-batch :
    (s : Seen) (ids : List String)
    → IsWellFormed s
    → AreNamed ids
    → All (λ id. contains s.seen_order id ≡ false) ids
    → length ids ≤ seen_event_cap
    → (x : String) → contains ids x ≡ true
    → (remember_all s ids).0.seen_ids x ≡ true
remember_all-batch s ids wf named out short x e =
    let h : List String = s.seen_order in
    let (t, _) = remember_all-Tracks ids s h named (Tracks-seen_order s wf) in
    let (more, same, few, all) = accept_all-batch h [] ids out in
    let grown : (accept_all h ids).0 ≡ h ++ more = rw (append-nil h) at same in
    t.valid.agrees x
    ∙ ap (λ l. contains l x) (t.order ∙ ap window grown)
    ∙ contains-window_of_suffix h more x (omega arith) (all x e)
