-- ===== src/Notifications/Feed/Pages.antt =====
-- The pages of the feed against a list of videos that does not change meanwhile.
use ytshare.Base.{
  take-page, length-take_le, length-take_positive, take-length, ℕ, zero, suc, ◌+◌, ◌≤◌, ◌<◌, ◌≡◌,
  refl, sym, ap, ◌∙◌, Bool-cases, inl, inr, none, some, List, [], ◌∷◌, ◌++◌, append_assoc,
  append-nil, if◌then◌else◌, ltb, ltb→lt, ltb-false→le, le→ltb-false, length, take, drop,
  length-drop, total-append, arith,
}
use ytshare.Videos.Types.{Video, VideoListResponse}
use ytshare.Notifications.Feed.{
  page_size, loaded, get_next_page_param, flat_items, last_page, next_param, fetch_next_page,
  fetch_pages,
}

-- What `GET /videos` promises while the videos are `all`: their number, and those from the offset
-- on, as many as the server wants to give, and one at least for a limit that is not 0.
pub record Listing (list_videos : (limit offset : ℕ) → VideoListResponse) (all : List Video)
    : Type 0 where
  pub size : (limit offset : ℕ) → ℕ
  pub size_positive : (limit offset : ℕ) → 0 < limit → 0 < size limit offset
  pub total_lem : (limit offset : ℕ) → (list_videos limit offset).total ≡ length all
  pub items_lem :
      (limit offset : ℕ)
      → (list_videos limit offset).items ≡ take (size limit offset) (drop offset all)

flat_items-append :
    (pages : List VideoListResponse) (p : VideoListResponse)
    → flat_items (pages ++ p ∷ []) ≡ flat_items pages ++ p.items
flat_items-append [] p = append-nil p.items
flat_items-append (q ∷ pages) p =
    ap (λ l. q.items ++ l) (flat_items-append pages p)
    ∙ sym (append_assoc q.items (flat_items pages) p.items)

loaded-append :
    (pages : List VideoListResponse) (p : VideoListResponse)
    → loaded (pages ++ p ∷ []) ≡ loaded pages + length p.items
loaded-append pages p = omega (arith, total-append (λ q. length q.items) pages (p ∷ []))

last_page-append :
    (q : VideoListResponse) (pages : List VideoListResponse) (p : VideoListResponse)
    → last_page q (pages ++ p ∷ []) ≡ p
last_page-append q [] p = refl
last_page-append q (r ∷ pages) p = last_page-append r pages p

next_param-append :
    (pages : List VideoListResponse) (p : VideoListResponse)
    → next_param (pages ++ p ∷ []) ≡ get_next_page_param p (pages ++ p ∷ [])
unfolding next_param
next_param-append [] p = refl
next_param-append (q ∷ pages) p = rw (last_page-append q pages p) refl

module _ (list_videos : (limit offset : ℕ) → VideoListResponse) (all : List Video)
    (listing : Listing list_videos all) where
  -- The items so far are the first videos of the list, none missing and none twice; the next fetch
  -- goes on behind them.
  pub record IsPaged (pages : List VideoListResponse) : Type 0 where
    pub items : flat_items pages ≡ take (loaded pages) all
    pub within : loaded pages ≤ length all
    pub next :
        next_param pages ≡ (if ltb (loaded pages) (length all) then some (loaded pages) else none)

  abbrev page_at : ℕ → VideoListResponse
  page_at offset = list_videos page_size offset

  IsPaged-append :
      (pages : List VideoListResponse)
      → flat_items pages ≡ take (loaded pages) all
      → loaded pages ≤ length all
      → IsPaged (pages ++ page_at (loaded pages) ∷ [])
  IsPaged-append pages items within = record {
    items =
        flat_items-append pages p
        ∙ (rw (items, page_lem) (sym (take-page (loaded pages) k all within))
            ∙ ap (λ n. take n all) (sym grown));
    within = omega (arith, grown, few, within, length-drop (loaded pages) all);
    next = rw (next_param-append pages p) (rw (listing.total_lem page_size (loaded pages)) refl);
  }
    where
      p : VideoListResponse
      p = page_at (loaded pages)

      k : ℕ
      k = listing.size page_size (loaded pages)

      page_lem : p.items ≡ take k (drop (loaded pages) all)
      page_lem = listing.items_lem page_size (loaded pages)

      grown : loaded (pages ++ p ∷ []) ≡ loaded pages + length (take k (drop (loaded pages) all))
      grown = loaded-append pages p ∙ ap (λ l. loaded pages + length l) page_lem

      few : length (take k (drop (loaded pages) all)) ≤ length (drop (loaded pages) all)
      few = length-take_le k (drop (loaded pages) all)

  -- What the feed has reached once nothing is left.
  pub record IsComplete (pages : List VideoListResponse) : Type 0 where
    pub items : flat_items pages ≡ all
    pub next : next_param pages ≡ none

  complete :
      (pages : List VideoListResponse)
      → IsPaged pages
      → length all ≤ loaded pages
      → IsComplete pages
  complete pages h over =
      let e : loaded pages ≡ length all = omega (arith, h.within, over) in
      record {
        items = h.items ∙ (rw e (take-length all));
        next = rw (h.next, le→ltb-false (loaded pages) (length all) over) refl;
      }

  -- A fetch keeps the order, and gets further, if anything is left.
  fetch_next_page-IsPaged :
      (pages : List VideoListResponse) → IsPaged pages → IsPaged (fetch_next_page list_videos pages)
  unfolding fetch_next_page
  fetch_next_page-IsPaged pages h = elim (Bool-cases (ltb (loaded pages) (length all))) [
    | inl left ↦ rw (h.next, left) (IsPaged-append pages h.items h.within)
    | inr done ↦ rw (h.next, done) h
  ]

  fetch_next_page-loaded :
      (n : ℕ) (pages : List VideoListResponse)
      → IsPaged pages
      → length all ≤ loaded pages + suc n
      → length all ≤ loaded (fetch_next_page list_videos pages) + n
  unfolding fetch_next_page
  fetch_next_page-loaded n pages h near = elim (Bool-cases (ltb (loaded pages) (length all))) [
    | inl left ↦
        rw (h.next, left)
          (omega (
            arith,
            near,
            loaded-append pages (page_at (loaded pages)),
            ap length (listing.items_lem page_size (loaded pages)),
            length-take_positive (listing.size page_size (loaded pages)) (drop (loaded pages) all)
                (listing.size_positive page_size (loaded pages) (omega arith))
                (omega (arith, ltb→lt _ _ left, length-drop (loaded pages) all)),
          ))
    | inr done ↦ rw (h.next, done) (omega (arith, ltb-false→le _ _ done))
  ]

  pages-IsComplete :
      (n : ℕ) (pages : List VideoListResponse)
      → IsPaged pages
      → length all ≤ loaded pages + n
      → IsComplete (fetch_pages list_videos n pages)
  unfolding fetch_pages
  pages-IsComplete zero pages h near = complete pages h (omega (arith, near))
  pages-IsComplete (suc n) pages h near =
      pages-IsComplete n (fetch_next_page list_videos pages) (fetch_next_page-IsPaged pages h)
        (fetch_next_page-loaded n pages h near)

  first-IsPaged : IsPaged (page_at 0 ∷ [])
  first-IsPaged = IsPaged-append [] refl (omega arith)

  fetch_pages_keep :
      (n : ℕ) (pages : List VideoListResponse)
      → IsPaged pages
      → IsPaged (fetch_pages list_videos n pages)
  unfolding fetch_pages
  fetch_pages_keep zero pages h = h
  fetch_pages_keep (suc n) pages h =
      fetch_pages_keep n (fetch_next_page list_videos pages) (fetch_next_page-IsPaged pages h)

  -- While the server's list does not change, scrolling to the end shows every video once and in
  -- order, and then asks for no more, whatever the sizes of the pages that the server gives: after
  -- more fetches than there are videos the items are the list, and there is no next page.
  pub fetch_pages-IsComplete : (n : ℕ) → length all < n → IsComplete (fetch_pages list_videos n [])
  unfolding fetch_pages fetch_next_page next_param
  fetch_pages-IsComplete zero h = absurd (omega (arith, h))
  fetch_pages-IsComplete (suc n) h =
      pages-IsComplete n (page_at 0 ∷ []) first-IsPaged (omega (arith, h))

  -- While the list does not change, after one fetch or more the items so far are the first ones of
  -- the server's list, and the next fetch starts behind them, if any are left.
  pub fetch_pages-IsPaged : (n : ℕ) → IsPaged (fetch_pages list_videos (suc n) [])
  unfolding fetch_pages fetch_next_page next_param
  fetch_pages-IsPaged n = fetch_pages_keep n (page_at 0 ∷ []) first-IsPaged
