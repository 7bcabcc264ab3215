-- ===== src/Videos/Keys.antt =====
-- frontend/src/modules/videos/constants/video-keys.ts
use ytshare.Base.{ℕ, [], ◌∷◌}
use ytshare.Shared.Query.{QueryKey, text, params, texts}

-- `videoKeys.all`
abbrev pub videos_all : QueryKey
videos_all = texts ("videos" ∷ [])

-- `videoKeys.list({ limit, offset })`
abbrev pub videos_list : ℕ → ℕ → QueryKey
videos_list limit offset =
    text "videos" ∷ text "list" ∷ params (("limit", limit) ∷ ("offset", offset) ∷ []) ∷ []
