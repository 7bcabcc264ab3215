-- ===== src/Tests/Board.antt =====
-- The unread count at a concrete board and client.
use ytshare.Base.{◌≡◌, refl, false, some, none, List, [], ◌∷◌, map, arith}
use ytshare.Notifications.Types.{NotificationEvent}
use ytshare.Notifications.Unread.{unread_count as client_count}
use ytshare.Backend.Videos.{extract_youtube_id}
use ytshare.Backend.Videos.Service.{new_service, shares, expires, share, handle}
use ytshare.Backend.Unread.{
  Board, counted, unread_count, mark_seen, Call, counts, marks, serves, step, run,
}
use ytshare.Backend.Unread.Agrees.{no_failure, client_after, unread_count-agrees}
use ytshare.Tests.Samples.{fresh_client}
use ytshare.Tests.Events.{blank, fresh-Represents}
use ytshare.Tests.Videos.{go, req, calls}

abbrev board : Board
board = record {
  readers = record { id = "u1"; last_seen = none } ∷ record { id = "u2"; last_seen = some 1 } ∷ [];
  service = new_service;
}

abbrev between : List Call
between =
    counts no_failure "u2" ∷ serves (shares calls req) ∷ marks false 8 "u1" ∷ serves expires ∷ []

abbrev told : List NotificationEvent
told =
    record {
      id = "e1";
      type = "video_shared";
      timestamp = "";
      recipient_id = none;
      payload = record {
        video_id = "v1";
        youtube_id = "dQw4w9WgXcQ";
        title = "YouTube video dQw4w9WgXcQ";
        thumbnail_url = "https://img.youtube.com/vi/dQw4w9WgXcQ/hqdefault.jpg";
        shared_by_id = "u1";
        shared_by_name = "Alice";
      };
    }
    ∷ []

one_share :
    (run go between (mark_seen false 3 "u2" board).0).service.jobs ≡ (map (λ evt. evt.payload) told)
unfolding run step mark_seen handle share extract_youtube_id
one_share = refl

unread_count-agrees_example :
    unread_count no_failure "u2" (run go between (mark_seen false 3 "u2" board).0)
    ≡ counted (client_count (client_after "u2" told fresh_client).queries)
unread_count-agrees_example =
    unread_count-agrees go "u2" 3 board between fresh_client blank told refl tt
      (tt, (omega arith, (refl, (tt, tt)))) fresh-Represents (refl, tt) (refl, tt) one_share

-- The count is that of one share.
counted_one :
    unread_count no_failure "u2" (run go between (mark_seen false 3 "u2" board).0) ≡ counted 1
unfolding unread_count run step mark_seen handle share extract_youtube_id
counted_one = refl
