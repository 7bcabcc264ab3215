-- ===== src/Backend/Accounts/Rows.antt =====
-- What is found in the table of users once a row is added.
use ytshare.Base.{
  ◌≡◌, refl, ap, Bool, true, Bool-cases, inl, inr, Option, none, some, List, [], ◌∷◌, ◌++◌,
  if◌then◌else◌,
}
use ytshare.Backend.Accounts.{Account, find_by}

find_by-append :
    (test : Account → Bool) (users more : List Account) (u : Account)
    → find_by test users ≡ some u
    → find_by test (users ++ more) ≡ some u
find_by-append test [] more u h = cc
find_by-append test (v ∷ users) more u h = elim (Bool-cases (test v)) [
  | inl found ↦ simp found (simp found at h)
  | inr other ↦ simp other (find_by-append test users more u (simp other at h))
]

find_by-last :
    (test : Account → Bool) (users : List Account) (u : Account)
    → find_by test users ≡ none
    → test u ≡ true
    → find_by test (users ++ u ∷ []) ≡ some u
find_by-last test [] u h e = rw e refl
find_by-last test (v ∷ users) u h e = elim (Bool-cases (test v)) [
  | inl found ↦
      absurd (cc (h, ap {B = Option Account} (λ b. if b then some v else find_by test users) found))
  | inr other ↦ simp other (find_by-last test users u (simp other at h) e)
]

-- A new row is the one that is found, also behind later rows.
pub found_later :
    (test : Account → Bool) (users later : List Account) (u : Account)
    → find_by test users ≡ none
    → test u ≡ true
    → find_by test ((users ++ u ∷ []) ++ later) ≡ some u
found_later test users later u none_yet own =
    find_by-append test (users ++ u ∷ []) later u (find_by-last test users u none_yet own)
