-- ===== src/Backend/Videos.antt =====
-- backend/internal/modules/videos: youtube.go here, the service in Service.
pub mod Ids
pub mod Service
pub mod Races
use Prim.Native.Char.{Char, code}
use Prim.Native.String
use Prim.Native.String.{[], ◌∷◌}
use ytshare.Base.{
  ℕ, zero, suc, String, Bool, true, false, ◌&&◌, ◌||◌, Option, none, some, List, [], ◌∷◌,
  if◌then◌else◌, leb, nat_eq, ◌==◌,
}

-- What `url.Parse` gives, with the value of the query's `v`, which is empty where it has none.
pub record ParsedUrl : Type 0 where
  pub host : String
  pub path : String
  pub video : String

-- The library's functions on text that depend on all of Unicode, and its parser of URLs.
pub record GoText : Type 0 where
  pub trim_space : String → String
  pub to_lower : String → String
  pub parse_url : String → Option ParsedUrl

abbrev between : ℕ → ℕ → Char → Bool
between low high c = leb low (code c) && leb (code c) high

-- `[A-Za-z0-9_-]`
abbrev id_char : Char → Bool
id_char c =
    between b'A' b'Z' c
    || between b'a' b'z' c
    || between b'0' b'9' c
    || nat_eq (code c) b'_'
    || nat_eq (code c) b'-'

abbrev all_of : ℕ → String → Bool
all_of zero [] = true
all_of zero (c ∷ rest) = false
all_of (suc n) [] = false
all_of (suc n) (c ∷ rest) = id_char c && all_of n rest

-- idPattern
abbrev pub is_id : String → Bool
is_id id = all_of 11 id

abbrev is_slash : Char → Bool
is_slash c = nat_eq (code c) b'/'

abbrev trim_left : String → String
trim_left [] = []
trim_left (c ∷ rest) = if is_slash c then trim_left rest else c ∷ rest

abbrev trim_right : String → String
trim_right [] = []
trim_right (c ∷ rest) =
    let kept = trim_right rest in if is_slash c && kept == "" then "" else c ∷ kept

-- `strings.Trim(s, "/")`
abbrev pub trim_slashes : String → String
trim_slashes s = trim_right (trim_left s)

abbrev onto_first : Char → List String → List String
onto_first c [] = (c ∷ []) ∷ []
onto_first c (part ∷ parts) = (c ∷ part) ∷ parts

-- `strings.Split(s, "/")`
abbrev pub split : String → List String
split [] = "" ∷ []
split (c ∷ rest) = if is_slash c then "" ∷ split rest else onto_first c (split rest)

-- `strings.TrimPrefix(s, "www.")`
abbrev pub trim_www : String → String
trim_www (a ∷ b ∷ c ∷ d ∷ rest) =
    if nat_eq (code a) b'w' && nat_eq (code b) b'w' && nat_eq (code c) b'w' && nat_eq (code d) b'.'
    then rest
    else a ∷ b ∷ c ∷ d ∷ rest
trim_www s = s

abbrev pub checked : String → Option String
checked id = if is_id id then some id else none

-- The last part of a path of two parts or more.
abbrev last_part : String → List String → Option String
last_part first [] = none
last_part first (part ∷ []) = some part
last_part first (part ∷ parts) = last_part part parts

abbrev checked_part : Option String → Option String
checked_part none = none
checked_part (some id) = checked id

abbrev path_id : List String → Option String
path_id [] = none
path_id (first ∷ parts) = checked_part (last_part first parts)

abbrev query_or_path_id : ParsedUrl → Option String
query_or_path_id u = if is_id u.video then some u.video else path_id (split (trim_slashes u.path))

abbrev youtube_host : String → Bool
youtube_host host = host == "youtube.com" || host == "m.youtube.com" || host == "music.youtube.com"

abbrev id_by_host : String → ParsedUrl → Option String
id_by_host host u =
    if host == "youtu.be"
    then checked (trim_slashes u.path)
    else (if youtube_host host then query_or_path_id u else none)

abbrev pub watch_url : String → String
watch_url id = String.◌++◌ "https://www.youtube.com/watch?v=" id

abbrev pub thumbnail_url : String → String
thumbnail_url id = String.◌++◌ "https://img.youtube.com/vi/" (String.◌++◌ id "/hqdefault.jpg")

module _ (go : GoText) where
  abbrev id_in : Option ParsedUrl → Option String
  id_in none = none
  id_in (some u) = id_by_host (go.to_lower (trim_www u.host)) u

  -- ExtractYouTubeID, whose errors are all the same to its caller.
  unfoldable pub extract_youtube_id : String → Option String
  extract_youtube_id raw =
      if go.trim_space raw == "" then none else id_in (go.parse_url (go.trim_space raw))
