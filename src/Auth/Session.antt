-- ===== src/Auth/Session.antt =====
-- frontend/src/modules/auth/utils/auth-storage.utils.ts: the session in the browser's storage.
use ytshare.Base.{String, ◌≡◌, refl, true, Option, none, some, if◌then◌else◌, truthy, arith}
use ytshare.Shared.Storage.{Storage, get_item, set_item, remove_item, update}
use ytshare.Auth.Types.{AuthSession}

-- What `JSON.parse` does with a text: it throws, or gives `null` or a session.
pub data Parsed : Type 0 where
  throws : Parsed
  value : Option AuthSession → Parsed

-- `JSON.stringify` and `JSON.parse` on sessions, and that the second undoes the first.
pub record SessionCodec : Type 0 where
  pub stringify : AuthSession → String
  pub parse : String → Parsed
  pub stringify_truthy : (s : AuthSession) → truthy (stringify s) ≡ true
  pub parse-stringify : (s : AuthSession) → parse (stringify s) ≡ value (some s)

-- SESSION_KEY
abbrev pub session_key : String
session_key = "youtube-share.auth.session"

-- `window`, with its storage; `none` where it is undefined.
abbrev pub Window : Type 0
Window = Option Storage

-- The `try` of `readSession`.
abbrev pub parsed_session : Parsed → Option AuthSession
parsed_session throws = none
parsed_session (value v) = v

abbrev pub raw_session : SessionCodec → Option String → Option AuthSession
raw_session codec none = none
raw_session codec (some raw) = if truthy raw then parsed_session (codec.parse raw) else none

unfoldable pub read_session : SessionCodec → Window → Option AuthSession
read_session codec none = none
read_session codec (some st) = raw_session codec (get_item st session_key)

-- `none` is the exception of `setItem`; nothing has changed then.
abbrev pub written : Option Storage → Option Window
written none = none
written (some st) = some (some st)

unfoldable pub write_session : SessionCodec → AuthSession → Window → Option Window
write_session codec session none = some none
write_session codec session (some st) = written (set_item st session_key (codec.stringify session))

unfoldable pub clear_session : Window → Window
clear_session none = none
clear_session (some st) = some (remove_item st session_key)

-- The storage after a write that did not throw.
abbrev pub with_session : SessionCodec → AuthSession → Storage → Storage
with_session codec session st = record st {
  entries = update st.entries session_key (some (codec.stringify session));
}

pub write_session-eq-some :
    (codec : SessionCodec) (session : AuthSession) (st : Storage) {w : Window}
    → write_session codec session (some st) ≡ some w
    → w ≡ some (with_session codec session st)
unfolding write_session set_item
write_session-eq-some codec session st e = ground arith

pub read_session-with_session :
    (codec : SessionCodec) (session : AuthSession) (st : Storage)
    → read_session codec (some (with_session codec session st)) ≡ some session
unfolding read_session
read_session-with_session codec session st =
    rw (codec.stringify_truthy session, codec.parse-stringify session) refl

pub read_session-clear_session :
    (codec : SessionCodec) (st : Storage) → read_session codec (clear_session (some st)) ≡ none
unfolding read_session clear_session remove_item
read_session-clear_session codec st = refl
