-- ===== src/Shared/Initial.antt =====
-- The letter in a user's round picture: `name?.[0]?.toUpperCase() ?? 'U'`, in HorizontalNav.tsx,
-- NotificationsPopover.tsx, NotificationToast.tsx and VideoCard.tsx.
use Prim.Native.String.{[], ◌∷◌}
use ytshare.Base.{String}

-- `upper` is `toUpperCase`. A character outside the basic plane counts as one here.
abbrev pub initial : (String → String) → String → String
initial upper [] = "U"
initial upper (c ∷ _) = upper (c ∷ [])
