-- ===== src/Tests/Dedup.antt =====
-- Deduplication at concrete ids.
use ytshare.Base.{String, ◌≡◌, refl, true, false, List, [], ◌∷◌}
use ytshare.Notifications.Dedup.{no_seen, evict, remember_seen, remember_all}
use ytshare.Notifications.Dedup.Window.{Tracks, no_seen-Tracks, accept_all, remember_all-Tracks}

abbrev ids : List String
ids = "e1" ∷ "e2" ∷ "e1" ∷ []

answers : (remember_all no_seen ids).1 ≡ true ∷ true ∷ false ∷ []
unfolding remember_all remember_seen evict
answers = refl

remember_all-Tracks_example :
    Tracks (remember_all no_seen ids).0 (accept_all [] ids).0
    × ((remember_all no_seen ids).1 ≡ (accept_all [] ids).1)
remember_all-Tracks_example =
    remember_all-Tracks ids no_seen [] ((λ e. cc), ((λ e. cc), ((λ e. cc), tt))) no_seen-Tracks
