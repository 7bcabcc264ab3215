-- ===== src/Navigation/Badges.antt =====
-- The badge against the events.
use ytshare.Base.{ℕ, String, ◌≡◌, Option, List, min, arith}
use ytshare.Notifications.Types.{NotificationEvent}
use ytshare.Notifications.Events.{Client, handle_all, unread_max}
use ytshare.Notifications.Events.Ideal.{Ideal, ideal_all, Represents, handle_all-Represents}
use ytshare.Notifications.Unread.{unread_count}
use ytshare.Navigation.{badge}

badge-min : (n : ℕ) → badge (min n unread_max) ≡ badge n
unfolding badge
badge-min n = ground arith

-- The badge never shows the cap of the cached count: after any events it is that of the number of
-- the shares that the ideal client counts.
pub badge-handle_all :
    (me : Option String) (events : List NotificationEvent) (c : Client) (i : Ideal)
    → Represents c i
    → badge (unread_count (handle_all me events c).queries) ≡ badge (ideal_all me events i).unread
badge-handle_all me events c i r =
    rw (handle_all-Represents me events c i r).unread (badge-min (ideal_all me events i).unread)
