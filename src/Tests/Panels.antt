-- ===== src/Tests/Panels.antt =====
-- The feed page by page, the popover, the badge and the bell.
use ytshare.Base.{
  ℕ, String, ◌≡◌, refl, false, Option, none, some, List, [], ◌∷◌, min, take, drop, arith,
}
use ytshare.Videos.Types.{Video, VideoListResponse}
use ytshare.Notifications.Dedup.Window.{no_seen-Tracks}
use ytshare.Notifications.Events.Ideal.{Ideal, Represents}
use ytshare.Notifications.Feed.{flat_items, fetch_pages, fetch_next_page, next_param}
use ytshare.Notifications.Feed.Pages.{Listing, IsComplete, fetch_pages-IsComplete}
use ytshare.Navigation.{Bar}
use ytshare.Tests.Samples.{fresh_client}

abbrev video : String → Video
video id = record {
  id = id;
  youtube_id = "y";
  url = "https://youtu.be/y";
  title = "A video";
  description = "";
  thumbnail_url = "t";
  shared_at = "2026-01-01";
  shared_by = record { id = "u2"; name = "Bob"; email = "b@b.c" };
}

abbrev three : List Video
three = video "a" ∷ video "b" ∷ video "c" ∷ []

-- A server that gives two videos at most.
abbrev in_pairs : ℕ → ℕ → VideoListResponse
in_pairs limit offset = record { items = take (min limit 2) (drop offset three); total = 3 }

in_pairs-listing : Listing in_pairs three
in_pairs-listing = record {
  size = λ limit offset. min limit 2;
  size_positive = λ limit offset h. omega (arith, h);
  total_lem = λ limit offset. refl;
  items_lem = λ limit offset. refl;
}

two_pages :
    (flat_items (fetch_pages in_pairs 1 []) ≡ video "a" ∷ video "b" ∷ [])
    × (next_param (fetch_pages in_pairs 1 []) ≡ some 2)
    × (flat_items (fetch_pages in_pairs 2 []) ≡ three)
    × (next_param (fetch_pages in_pairs 2 []) ≡ none)
unfolding fetch_pages fetch_next_page next_param
two_pages = (refl, refl, refl, refl)

fetch_pages-IsComplete_example :
    IsComplete in_pairs three in_pairs-listing (fetch_pages in_pairs 4 [])
fetch_pages-IsComplete_example =
    fetch_pages-IsComplete in_pairs three in_pairs-listing 4 (omega arith)

abbrev as_is : String → String
as_is text = text

abbrev no_date : String → Option ℕ
no_date text = none

abbrev blank : Ideal
blank = record { history = []; last = ""; toasts = []; unread = 0 }

fresh-Represents : Represents fresh_client blank
fresh-Represents = record { tracks = no_seen-Tracks; last = refl; toasts = refl; unread = refl }

abbrev closed_bar : Bar
closed_bar = record { notif_open = false; marked = 0 }
