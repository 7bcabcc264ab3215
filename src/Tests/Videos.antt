-- ===== src/Tests/Videos.antt =====
-- The service of videos at concrete requests.
use Prim.Native.String
use Prim.Native.String.{[], ◌∷◌}
use text.Mathlib.TextLemmas.{nil-append, cons-append}
use ytshare.Base.{String, ◌≡◌, refl, ap, ◌∙◌, false, some, List, [], ◌∷◌, map, All}
use ytshare.Backend.Videos.{GoText, extract_youtube_id}
use ytshare.Backend.Videos.Ids.{GoTextLaws}
use ytshare.Backend.Videos.Service.{
  new_service, ShareCalls, ShareRequest, VideoView, shared, refused, already_shared, ListCalls, pos,
  share, Request, shares, lists, expires, serve, answers,
}
use ytshare.Backend.Videos.Service.Stored.{
  announced, IsDistinct, IsCanonical, serve-IsStored, share-once,
}
use ytshare.Backend.Videos.Service.Cached.{uncached, answers-uncached}

abbrev behind : String → String → String
behind [] s = s
behind (c ∷ prefix) [] = []
behind (c ∷ prefix) (d ∷ s) = behind prefix s

behind-append : (prefix s : String) → behind prefix (String.◌++◌ prefix s) ≡ s
behind-append [] s = ap (behind []) (nil-append s)
behind-append (c ∷ prefix) s =
    ap (behind (c ∷ prefix)) (cons-append c prefix s) ∙ behind-append prefix s

-- A parser for the URLs of the site itself.
abbrev pub go : GoText
go = record {
  trim_space = λ s. s;
  to_lower = λ s. s;
  parse_url = λ s. some (record {
    host = "www.youtube.com";
    path = "/watch";
    video = behind "https://www.youtube.com/watch?v=" s;
  });
}

laws : GoTextLaws go
laws = record {
  trimmed = λ id h. refl;
  lower = refl;
  parsed = λ id h.
      ap (λ v. some (record { host = "www.youtube.com"; path = "/watch"; video = v }))
        (behind-append "https://www.youtube.com/watch?v=" id);
}

abbrev pub req : ShareRequest
req = record { url = "https://www.youtube.com/watch?v=dQw4w9WgXcQ"; title = ""; description = "" }

abbrev pub calls : ShareCalls
calls = record {
  sharer = some (record { id = "u1"; name = "Alice"; email = "a@b.c" });
  id = "v1";
  now = 7;
  find_fails = false;
  create_fails = false;
  delete_fails = false;
}

abbrev view : VideoView
view = record {
  id = "v1";
  youtube_id = "dQw4w9WgXcQ";
  url = "https://www.youtube.com/watch?v=dQw4w9WgXcQ";
  title = "YouTube video dQw4w9WgXcQ";
  description = "";
  thumbnail_url = "https://img.youtube.com/vi/dQw4w9WgXcQ/hqdefault.jpg";
  shared_at = 7;
  shared_by = record { id = "u1"; name = "Alice"; email = "a@b.c" };
}

abbrev no_failure : ListCalls
no_failure = record { get_fails = false; list_fails = false; set_fails = false }

abbrev requests : List Request
requests =
    lists no_failure (pos 20) (pos 0)
    ∷ shares calls req
    ∷ lists no_failure (pos 20) (pos 0)
    ∷ expires
    ∷ []

shares_first : (share go calls req new_service).1 ≡ shared view
unfolding share extract_youtube_id
shares_first = refl

serve-IsStored_example :
    All IsCanonical (serve go requests new_service).videos
    × IsDistinct (serve go requests new_service).videos
    × ((serve go requests new_service).jobs ≡ announced (serve go requests new_service).videos)
serve-IsStored_example = serve-IsStored go requests

share-once_example :
    share go calls req (serve go requests (share go calls req new_service).0)
    ≡ (serve go requests (share go calls req new_service).0, refused already_shared)
share-once_example =
    share-once go laws calls calls req req new_service view requests shares_first refl refl

answers-uncached_example :
    answers go requests new_service ≡ answers go (map uncached requests) new_service
answers-uncached_example =
    answers-uncached go requests ((refl, λ e. refl), (refl, ((refl, λ e. refl), (tt, tt))))
