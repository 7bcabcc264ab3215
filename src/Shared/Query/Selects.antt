-- ===== src/Shared/Query/Selects.antt =====
-- Which keys the filters given to the cache select.
use ytshare.Base.{
  String, ◌≡◌, refl, ◌≢◌, true, false, ◌||◌, List, [], ◌∷◌, ◌++◌, arith, Bool-cases, inl, inr,
}
use ytshare.Shared.Query.{QueryKey, KeyMatch, selects, texts}

module _ (m : KeyMatch) where
  pub selects-append :
      (fs gs : List QueryKey) (key : QueryKey)
      → selects m (fs ++ gs) key ≡ (selects m fs key || selects m gs key)
  unfolding selects
  selects-append [] gs key = refl
  selects-append (f ∷ fs) gs key = ground (arith, selects-append fs gs key)

  -- A filter that is added selects what it covers.
  pub selects-append_covering :
      (old : List QueryKey) (f key : QueryKey)
      → m.covers f key ≡ true
      → selects m (old ++ f ∷ []) key ≡ true
  unfolding selects
  selects-append_covering old f key h = ground (arith, selects-append old (f ∷ []) key)

  pub covers_not :
      (f : List String) (key : QueryKey)
      → ((rest : QueryKey) → key ≢ texts f ++ rest)
      → m.covers (texts f) key ≡ false
  covers_not f key h = elim (Bool-cases (m.covers (texts f) key)) [
    | inl yes' ↦ (let (rest, e) = (m.covers_iff f key).0 yes' in absurd (h rest e))
    | inr no' ↦ no'
  ]

  pub covers_prefix :
      (f : List String) (rest : QueryKey) → m.covers (texts f) (texts f ++ rest) ≡ true
  covers_prefix f rest = (m.covers_iff f (texts f ++ rest)).1 (rest, refl)
