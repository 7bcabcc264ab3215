-- ===== src/Backend/Videos/Ids.antt =====
-- The ids that are found in URLs.
use ytshare.Base.{
  String, ◌≡◌, refl, Bool, true, false, Bool-cases, inl, inr, Option, none, some, List, [], ◌∷◌,
  if◌then◌else◌, ◌==◌, eq_iff,
}
use text.Mathlib.TextLemmas.{append-eq-nil_iff}
use mathlib.Core.Path.{subst}
use ytshare.Backend.Videos.{
  ParsedUrl, GoText, is_id, checked, checked_part, path_id, last_part, split, trim_slashes,
  id_by_host, query_or_path_id, youtube_host, trim_www, id_in, watch_url, extract_youtube_id,
}

-- What the code relies on of the library: the URL that it builds itself is parsed as it was meant.
pub record GoTextLaws (go : GoText) : Type 0 where
  pub trimmed : (id : String) → is_id id ≡ true → go.trim_space (watch_url id) ≡ watch_url id
  pub lower : go.to_lower "youtube.com" ≡ "youtube.com"
  pub parsed :
      (id : String)
      → is_id id ≡ true
      → go.parse_url (watch_url id)
        ≡ some (record { host = "www.youtube.com"; path = "/watch"; video = id })

-- Where an id is given, it is one.
abbrev GivesId : Option String → Type 0
GivesId none = Unit
GivesId (some id) = is_id id ≡ true

checked-GivesId : (id : String) → GivesId (checked id)
checked-GivesId id = elim (Bool-cases (is_id id)) [ inl e ↦ rw e e | inr e ↦ rw e tt ]

checked_part-GivesId : (part : Option String) → GivesId (checked_part part)
checked_part-GivesId none = tt
checked_part-GivesId (some id) = checked-GivesId id

path_id-GivesId : (parts : List String) → GivesId (path_id parts)
path_id-GivesId [] = tt
path_id-GivesId (first ∷ parts) = checked_part-GivesId (last_part first parts)

if-GivesId :
    (b : Bool) (x y : Option String)
    → (b ≡ true → GivesId x)
    → GivesId y
    → GivesId (if b then x else y)
if-GivesId true x y h k = h refl
if-GivesId false x y h k = k

query_or_path_id-GivesId : (u : ParsedUrl) → GivesId (query_or_path_id u)
query_or_path_id-GivesId u =
    if-GivesId (is_id u.video) (some u.video) (path_id (split (trim_slashes u.path))) (λ e. e)
      (path_id-GivesId (split (trim_slashes u.path)))

id_by_host-GivesId : (host : String) (u : ParsedUrl) → GivesId (id_by_host host u)
id_by_host-GivesId host u =
    if-GivesId (host == "youtu.be") (checked (trim_slashes u.path))
      (if youtube_host host then query_or_path_id u else none)
      (λ _. checked-GivesId (trim_slashes u.path))
      (if-GivesId (youtube_host host) (query_or_path_id u) none (λ _. query_or_path_id-GivesId u)
        tt)

module _ (go : GoText) where
  id_in-GivesId : (parsed : Option ParsedUrl) → GivesId (id_in go parsed)
  id_in-GivesId none = tt
  id_in-GivesId (some u) = id_by_host-GivesId (go.to_lower (trim_www u.host)) u

  pub extract_youtube_id-GivesId : (raw : String) → GivesId (extract_youtube_id go raw)
  unfolding extract_youtube_id
  extract_youtube_id-GivesId raw =
      if-GivesId (go.trim_space raw == "") none (id_in go (go.parse_url (go.trim_space raw)))
        (λ _. tt) (id_in-GivesId (go.parse_url (go.trim_space raw)))

  pub extract_youtube_id-is_id :
      (raw id : String) → extract_youtube_id go raw ≡ some id → is_id id ≡ true
  extract_youtube_id-is_id raw id e = subst GivesId e (extract_youtube_id-GivesId raw)

  watch_url-not_empty : (id : String) → (watch_url id == "") ≡ false
  watch_url-not_empty id = elim (Bool-cases (watch_url id == "")) [
    | inl empty ↦ absurd (
        cc (
          ((append-eq-nil_iff {p = "https://www.youtube.com/watch?v="} {q = id}).0
            ((eq_iff (watch_url id) "").0 empty)).0))
    | inr other ↦ other
  ]

  -- The URL that is built for an id gives the id back.
  pub extract_youtube_id-watch_url :
      (laws : GoTextLaws go) (id : String)
      → is_id id ≡ true
      → extract_youtube_id go (watch_url id) ≡ some id
  unfolding extract_youtube_id
  extract_youtube_id-watch_url laws id e =
      rw (laws.trimmed id e, laws.parsed id e, laws.lower, e) (rw (watch_url-not_empty id) refl)
