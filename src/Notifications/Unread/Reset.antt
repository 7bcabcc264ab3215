-- ===== src/Notifications/Unread/Reset.antt =====
-- Marking all as seen, seen from the events that come before and behind it.
use ytshare.Base.{arith}
use ytshare.Notifications.Events.{Client}
use ytshare.Notifications.Events.Ideal.{Ideal, Represents}
use ytshare.Notifications.Unread.{on_seen}

-- Marking all as seen resets the count, and nothing else, of a client that keeps in step with the
-- ideal one: the events behind it are counted from 0.
pub on_seen-Represents :
    (c : Client) (i : Ideal)
    → Represents c i
    → Represents (record c { queries = on_seen c.queries }) (record i { unread = 0 })
unfolding on_seen
on_seen-Represents c i r = record {
  tracks = r.tracks;
  last = r.last;
  toasts = r.toasts;
  unread = omega arith;
}
