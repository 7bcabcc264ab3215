-- ===== src/Backend/Videos/Service/Cached.antt =====
-- The cached first page against the table.
use ytshare.Base.{
  String, ◌≡◌, refl, sym, ap, ◌∙◌, Bool, true, false, ◌&&◌, not, Bool-cases, ◌⊎◌, inl, inr, Option,
  none, some, List, [], ◌∷◌, map, if◌then◌else◌, All, arith,
}
use mathlib.Core.Path.{subst}
use ytshare.Backend.Videos.{GoText, extract_youtube_id}
use ytshare.Backend.Videos.Service.{
  VideoRow, Service, new_service, ListResponse, ShareCalls, ShareRequest, ListCalls, ℤ, pos, negsuc,
  effective_limit, is_first_page, page, list, Request, shares, lists, expires, share_answer,
  list_answer, User, refused, internal, invalid_url, already_shared, store, share_by, share_id,
  video_of, is_shared, fetch, cached_or_fetch, handle, answers,
}

-- Requests for which the one cached entry will do: no call fails but those of reading and writing the
-- cache, and who asks for the first page asks for 20.
abbrev pub IsRegular : Request → Type 0
IsRegular (shares calls req) = calls.delete_fails ≡ false
IsRegular (lists calls limit offset) =
    (calls.list_fails ≡ false) × (is_first_page limit offset ≡ true → effective_limit limit ≡ 20)
IsRegular expires = Unit

-- The request at a service whose cache never has the entry.
abbrev pub uncached : Request → Request
uncached (lists calls limit offset) = lists (record calls { get_fails = true }) limit offset
uncached request = request

abbrev pub IsCoherent : Service → Type 0
IsCoherent s = (s.cache ≡ none) ⊎ (s.cache ≡ some (page (pos 20) (pos 0) s.videos))

-- The same outcome, but for the entry of the cache, which stays right on the first side.
record IsTwin {ℓ} {A : Type ℓ} (p q : Service × A) : Type ℓ where
  pub entry : Option ListResponse
  pub same : q ≡ (record p.0 { cache = entry }, p.1)
  pub right : IsCoherent p.0

answered {ℓ ℓ'} :
    {A : Type ℓ} {B : Type ℓ'} (f : A → B) {p q : Service × A}
    → IsTwin p q
    → IsTwin (p.0, f p.1) (q.0, f q.1)
answered f t = record { entry = t.entry; same = ap (λ r. (r.0, f r.1)) t.same; right = t.right }

page-first :
    (limit offset : ℤ) (videos : List VideoRow)
    → is_first_page limit offset ≡ true
    → effective_limit limit ≡ 20
    → page limit offset videos ≡ page (pos 20) (pos 0) videos
page-first limit (negsuc n) videos first size = cc
page-first (pos m) (pos n) videos first size =
    let start : n ≡ 0 = ground arith in rw (size, start) refl
page-first (negsuc m) (pos n) videos first size = let start : n ≡ 0 = ground arith in rw start refl

never_read :
    (first : Bool) (entry : Option ListResponse)
    → (if first && not true then entry else none) ≡ none
never_read true entry = refl
never_read false entry = refl

entry_read :
    (first get_fails : Bool) (entry : Option ListResponse) (current : ListResponse)
    → (entry ≡ none) ⊎ (entry ≡ some current)
    → ((if first && not get_fails then entry else none) ≡ none)
      ⊎ ((first ≡ true) × ((if first && not get_fails then entry else none) ≡ some current))
entry_read true true entry current h = inl refl
entry_read true false entry current (inl e) = inl e
entry_read true false entry current (inr e) = inr (refl, e)
entry_read false get_fails entry current h = inl refl

-- The entry behind a fetch.
abbrev refilled : ListCalls → ℤ → ℤ → List VideoRow → Option ListResponse → Option ListResponse
refilled calls limit offset videos old =
    if is_first_page limit offset && not calls.set_fails
    then some (page limit offset videos)
    else old

refilled_lem :
    (calls : ListCalls) (limit offset : ℤ) (videos : List VideoRow) (old : Option ListResponse)
    → (is_first_page limit offset ≡ true → effective_limit limit ≡ 20)
    → (old ≡ none) ⊎ (old ≡ some (page (pos 20) (pos 0) videos))
    → (refilled calls limit offset videos old ≡ none)
      ⊎ (refilled calls limit offset videos old ≡ some (page (pos 20) (pos 0) videos))
refilled_lem calls limit offset videos old size h = elim (Bool-cases (is_first_page limit offset)) [
  | inr later ↦ rw later h
  | inl first ↦ elim (Bool-cases calls.set_fails) [
    | inl fails ↦ rw (first, fails) h
    | inr sets ↦
        rw (first, sets) (inr (ap some (page-first limit offset videos first (size first))))
  ]
]

module _ (go : GoText) (s : Service) (d : Option ListResponse) (coherent : IsCoherent s) where
  abbrev twin : Service
  twin = record s { cache = d }

  untouched {ℓ} : {A : Type ℓ} (a : A) → IsTwin (s, a) (twin, a)
  untouched a = record { entry = d; same = refl; right = coherent }

  store-IsTwin :
      (calls : ShareCalls) (v : VideoRow)
      → calls.delete_fails ≡ false
      → IsTwin (store go calls v s) (store go calls v twin)
  store-IsTwin calls v regular = elim (Bool-cases calls.create_fails) [
    | inl fails ↦ rw fails (untouched (refused internal))
    | inr works ↦ rw (works, regular) (record { entry = none; same = refl; right = inl refl })
  ]

  share_by-IsTwin :
      (sharer : Option User) (calls : ShareCalls) (req : ShareRequest) (id : String)
      → calls.delete_fails ≡ false
      → IsTwin (share_by go sharer calls req id s) (share_by go sharer calls req id twin)
  share_by-IsTwin none calls req id regular = untouched (refused internal)
  share_by-IsTwin (some sharer) calls req id regular =
      store-IsTwin calls (video_of go calls req sharer id) regular

  share_id-IsTwin :
      (found : Option String) (calls : ShareCalls) (req : ShareRequest)
      → calls.delete_fails ≡ false
      → IsTwin (share_id go found calls req s) (share_id go found calls req twin)
  share_id-IsTwin none calls req regular = untouched (refused invalid_url)
  share_id-IsTwin (some id) calls req regular = elim (Bool-cases calls.find_fails) [
    | inl fails ↦ simp fails (untouched (refused internal))
    | inr works ↦ elim (Bool-cases (is_shared id s.videos)) [
      | inl old ↦ simp (works, old) (untouched (refused already_shared))
      | inr new ↦ simp (works, new) (share_by-IsTwin calls.sharer calls req id regular)
    ]
  ]

  fetch-IsTwin :
      (calls : ListCalls) (limit offset : ℤ)
      → IsRegular (lists calls limit offset)
      → IsTwin (fetch calls limit offset s) (fetch calls limit offset twin)
  fetch-IsTwin calls limit offset (works, size) = rw works (record {
    entry = refilled calls limit offset s.videos d;
    same = refl;
    right = refilled_lem calls limit offset s.videos s.cache size coherent;
  })

  cached_or_fetch-IsTwin :
      (entry : Option ListResponse) (calls : ListCalls) (limit offset : ℤ)
      → IsRegular (lists calls limit offset)
      → (entry ≡ none)
        ⊎ ((is_first_page limit offset ≡ true) × (entry ≡ some (page (pos 20) (pos 0) s.videos)))
      → IsTwin (cached_or_fetch entry calls limit offset s) (fetch calls limit offset twin)
  cached_or_fetch-IsTwin none calls limit offset regular found =
      fetch-IsTwin calls limit offset regular
  cached_or_fetch-IsTwin (some cached) calls limit offset regular (inl e) = cc e
  cached_or_fetch-IsTwin (some cached) calls limit offset (works, size) (inr (first, e)) =
      rw works (record {
        entry = refilled calls limit offset s.videos d;
        same =
            ap (λ r. (record s { cache = refilled calls limit offset s.videos d }, r))
              (ap some (page-first limit offset s.videos first (size first)) ∙ sym e);
        right = coherent;
      })

  list-IsTwin :
      (calls : ListCalls) (limit offset : ℤ)
      → IsRegular (lists calls limit offset)
      → IsTwin
          (list calls limit offset s)
          (list (record calls { get_fails = true }) limit offset twin)
  unfolding list
  list-IsTwin calls limit offset regular =
      subst
        (λ entry.
          IsTwin (list calls limit offset s)
            (cached_or_fetch entry (record calls { get_fails = true }) limit offset twin))
        (sym (never_read (is_first_page limit offset) d))
        (cached_or_fetch-IsTwin _ calls limit offset regular
          (entry_read (is_first_page limit offset) calls.get_fails s.cache _ coherent))

  handle-IsTwin :
      (request : Request)
      → IsRegular request
      → IsTwin (handle go request s) (handle go (uncached request) twin)
  unfolding handle
  handle-IsTwin (shares calls req) regular =
      answered share_answer (share_id-IsTwin (extract_youtube_id go req.url) calls req regular)
  handle-IsTwin (lists calls limit offset) regular =
      answered list_answer (list-IsTwin calls limit offset regular)
  handle-IsTwin expires regular = record { entry = none; same = refl; right = inl refl }

module _ (go : GoText) where
  answers_from-uncached :
      (requests : List Request) (s : Service) (d : Option ListResponse)
      → IsCoherent s
      → All IsRegular requests
      → answers go requests s ≡ answers go (map uncached requests) (record s { cache = d })
  unfolding answers
  answers_from-uncached [] s d coherent regular = refl
  answers_from-uncached (request ∷ requests) s d coherent (first, regular) =
      let t = handle-IsTwin go s d coherent request first in
      let rest = answers_from-uncached requests (handle go request s).0 t.entry t.right regular in
      ap (λ answered. (handle go request s).1 ∷ answered) rest
      ∙ ap (λ p. p.1 ∷ answers go (map uncached requests) p.0) (sym t.same)

  -- With a cache, the service answers as it does without one, where every request for the first page
  -- asks for 20 videos and neither the table nor the invalidation of the cache fails. Reading or
  -- writing the cache may fail, and its entry may run out.
  pub answers-uncached :
      (requests : List Request)
      → All IsRegular requests
      → answers go requests new_service ≡ answers go (map uncached requests) new_service
  answers-uncached requests regular =
      answers_from-uncached requests new_service none (inl refl) regular
