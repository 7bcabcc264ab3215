-- ===== src/Backend/Stream/Placed.antt =====
-- What the subscriber has handed on is a part of the stream without gaps.
use mathlib.Core.List.{append_assoc}
use ytshare.Base.{
  ℕ, ◌<◌, ◌≡◌, refl, sym, ap, ◌∙◌, true, Bool-cases, Option, none, some, inl, inr, List, [], ◌∷◌,
  ◌++◌, append-nil, if◌then◌else◌, length, All, All-append, ltb, arith, ltb→lt, lt→ltb,
  le→ltb-false,
}
use ytshare.Backend.Hub
use ytshare.Backend.Stream.{Entry, Json, Redis, Subscriber, is_next, dispatch, receive}

-- The entries with a greater id.
abbrev pub behind : ℕ → List Entry → List Entry
behind id [] = []
behind id (entry ∷ entries) =
    let rest = behind id entries in if ltb id entry.id then entry ∷ rest else rest

-- What is documented of XREAD: it answers with the oldest entries behind the id, or behind those
-- that the stream held when the call began, and with some where there are some.
pub record RedisLaws (redis : Redis) : Type 0 where
  pub from_id :
      (id : ℕ) (before entries : List Entry)
      → (more : List Entry) × (redis.xread (some id) before entries ++ more ≡ behind id entries)
  pub from_new :
      (before new : List Entry)
      → (more : List Entry) × (redis.xread none before (before ++ new) ++ more ≡ new)
  pub some_left :
      (id : ℕ) (before entries : List Entry)
      → 0 < length (behind id entries)
      → 0 < length (redis.xread (some id) before entries)

-- Every id is less than those behind it.
abbrev pub IsSorted : List Entry → Type 0
IsSorted [] = Unit
IsSorted (entry ∷ entries) = All (λ e. entry.id < e.id) entries × IsSorted entries

pub append-IsSorted :
    (entries : List Entry) (entry : Entry)
    → IsSorted entries
    → is_next entry.id entries ≡ true
    → IsSorted (entries ++ entry ∷ [])
append-IsSorted [] entry sorted next = (tt, tt)
append-IsSorted (e ∷ entries) entry (first, sorted) next = elim (Bool-cases (ltb e.id entry.id)) [
  | inl less ↦ (
    All-append _ entries (entry ∷ []) first (ltb→lt e.id entry.id less, tt),
    append-IsSorted entries entry sorted (rw less at next),
  )
  | inr more ↦ absurd (cc (rw more at next))
]

behind-all :
    (id : ℕ) (entries : List Entry) → All (λ e. id < e.id) entries → behind id entries ≡ entries
behind-all id [] all = refl
behind-all id (e ∷ entries) (more, all) =
    rw (lt→ltb id e.id more) (ap (λ l. e ∷ l) (behind-all id entries all))

All-at :
    (P : Entry → Type 0) (front rest : List Entry) (entry : Entry)
    → All P (front ++ entry ∷ rest)
    → P entry
All-at P [] rest entry all = all.0
All-at P (e ∷ front) rest entry all = All-at P front rest entry all.1

-- Behind an entry of a sorted stream is what stands behind it.
pub behind-sorted :
    (front rest : List Entry) (entry : Entry)
    → IsSorted (front ++ entry ∷ rest)
    → behind entry.id (front ++ entry ∷ rest) ≡ rest
behind-sorted [] rest entry (all, sorted) =
    rw (le→ltb-false entry.id entry.id (omega arith)) (behind-all entry.id rest all)
behind-sorted (e ∷ front) rest entry (all, sorted) =
    let less : e.id < entry.id = All-at (λ x. e.id < x.id) front rest entry all in
    rw (le→ltb-false entry.id e.id (omega (arith, less))) (behind-sorted front rest entry sorted)

pub append-moved :
    (before got : List Entry) (first : Entry) (rest : List Entry)
    → (before ++ got) ++ first ∷ rest ≡ (before ++ (got ++ first ∷ [])) ++ rest
append-moved before got first rest =
    append_assoc before got (first ∷ rest)
    ∙ ap (λ l. before ++ l) (sym (append_assoc got (first ∷ []) rest))
    ∙ sym (append_assoc before (got ++ first ∷ []) rest)

module _ (json : Json) where
  -- The calls of the hub for entries.
  abbrev pub dispatch_all : List Entry → List Hub.Event
  dispatch_all [] = []
  dispatch_all (entry ∷ entries) = dispatch json entry ++ dispatch_all entries

  dispatch_all-append :
      (xs ys : List Entry) → dispatch_all (xs ++ ys) ≡ dispatch_all xs ++ dispatch_all ys
  dispatch_all-append [] ys = refl
  dispatch_all-append (x ∷ xs) ys =
      ap (λ l. dispatch json x ++ l) (dispatch_all-append xs ys)
      ∙ sym (append_assoc (dispatch json x) (dispatch_all xs) (dispatch_all ys))

  dispatch_all-snoc :
      (got : List Entry) (entry : Entry) (calls : List Hub.Event)
      → calls ≡ dispatch_all got
      → calls ++ dispatch json entry ≡ dispatch_all (got ++ entry ∷ [])
  dispatch_all-snoc got entry calls e =
      ap (λ l. l ++ dispatch json entry) e
      ∙ sym (
          dispatch_all-append got (entry ∷ [])
          ∙ ap (λ l. dispatch_all got ++ l) (append-nil (dispatch json entry)))

  -- The subscriber stands before the entries `rest`, and what it has handed on is everything in front
  -- of them from the entries `before` on.
  pub record IsFrom (before rest entries : List Entry) (last_id : Option ℕ) (calls : List Hub.Event)
      : Type 0 where
    pub got : List Entry
    pub latest : Entry
    pub at : last_id ≡ some latest.id
    pub whole : entries ≡ (before ++ got) ++ latest ∷ rest
    pub handed : calls ≡ dispatch_all (got ++ latest ∷ [])

  -- What is left to read.
  pub behind-latest :
      (before rest entries : List Entry) (last_id : Option ℕ) (calls : List Hub.Event)
      → IsSorted entries
      → (f : IsFrom before rest entries last_id calls) → behind f.latest.id entries ≡ rest
  behind-latest before rest entries last_id calls sorted f =
      ap (behind f.latest.id) f.whole
      ∙ behind-sorted (before ++ f.got) rest f.latest (rw f.whole at sorted)

  pub receive-IsFrom :
      (before got more : List Entry) (first : Entry) (msgs entries : List Entry) (s : Subscriber)
      → entries ≡ (before ++ got) ++ first ∷ (msgs ++ more)
      → s.calls ≡ dispatch_all got
      → IsFrom before more entries
          (receive json (first ∷ msgs) s).last_id
          (receive json (first ∷ msgs) s).calls
  receive-IsFrom before got more first [] entries s whole calls = record {
    got = got;
    latest = first;
    at = refl;
    whole = whole;
    handed = dispatch_all-snoc got first s.calls calls;
  }
  receive-IsFrom before got more first (second ∷ msgs) entries s whole calls =
      receive-IsFrom before (got ++ first ∷ []) more second msgs entries
        (record s { last_id = some first.id; calls = s.calls ++ dispatch json first })
        (whole ∙ append-moved before got first (second ∷ (msgs ++ more)))
        (dispatch_all-snoc got first s.calls calls)

  -- A new entry is one more to read.
  pub grown-IsFrom :
      (before rest entries : List Entry) (last_id : Option ℕ) (calls : List Hub.Event)
      (entry : Entry)
      → IsFrom before rest entries last_id calls
      → IsFrom before (rest ++ entry ∷ []) (entries ++ entry ∷ []) last_id calls
  grown-IsFrom before rest entries last_id calls entry f = record {
    got = f.got;
    latest = f.latest;
    at = f.at;
    whole =
        ap (λ l. l ++ entry ∷ []) f.whole
        ∙ append_assoc (before ++ f.got) (f.latest ∷ rest) (entry ∷ []);
    handed = f.handed;
  }

  pub read-IsFrom :
      (before rest entries msgs more : List Entry) (s : Subscriber)
      → IsFrom before rest entries s.last_id s.calls
      → msgs ++ more ≡ rest
      → IsFrom before more entries (receive json msgs s).last_id (receive json msgs s).calls
  read-IsFrom before rest entries [] more s f e = rw (sym e) at f
  read-IsFrom before rest entries (first ∷ msgs) more s f e =
      receive-IsFrom before (f.got ++ f.latest ∷ []) more first msgs entries s
        (f.whole
          ∙ ap (λ l. (before ++ f.got) ++ f.latest ∷ l) (sym e)
          ∙ append-moved before f.got f.latest (first ∷ (msgs ++ more)))
        f.handed
