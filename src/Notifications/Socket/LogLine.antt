-- ===== src/Notifications/Socket/LogLine.antt =====
-- The URL of the socket as text, and as `connect` of useNotificationsSocket.tsx logs it. The encoding of
-- a value by `URLSearchParams` is a parameter.
use Prim.Native.String
use Prim.Native.String.{[], ◌∷◌}
use Prim.Native.Char.{Char, code}
use text.Mathlib.TextLemmas.{nil-append, cons-append}
use ytshare.Base.{
  String, ◌≡◌, refl, sym, ap, ◌∙◌, Bool, true, false, ◌&&◌, ◌||◌, not, Bool-cases, inl, inr, Option,
  none, some, if◌then◌else◌, nat_eq, ◌==◌, arith,
}
use ytshare.Notifications.Socket.{SocketUrl}
use ytshare.Shared.Requests.{notifications_ws, endpoint_path}

abbrev behind_text : String → String → Option String
behind_text [] s = some s
behind_text (c ∷ text) [] = none
behind_text (c ∷ text) (d ∷ s) = if nat_eq (code c) (code d) then behind_text text s else none

abbrev is_amp : Char → Bool
is_amp c = nat_eq (code c) b'&'

-- What `[^&]+` leaves, and `none` where it does not match.
abbrev from_amp : String → String
from_amp [] = []
from_amp (c ∷ s) = if is_amp c then c ∷ s else from_amp s

abbrev behind_value : Option String → Option String
behind_value none = none
behind_value (some []) = none
behind_value (some (c ∷ s)) = if is_amp c then none else some (from_amp s)

abbrev redacted : Option String → String → String
redacted none unchanged = unchanged
redacted (some rest) unchanged = String.◌++◌ "access_token=***" rest

-- `url.replace(/access_token=[^&]+/, 'access_token=***')`
unfoldable pub debug_url : String → String
debug_url [] = []
debug_url (c ∷ s) =
    let later = debug_url s in
    redacted (behind_value (behind_text "access_token=" (c ∷ s))) (c ∷ later)

-- The text differs from a pattern before either ends.
abbrev is_apart : String → String → Bool
is_apart [] s = false
is_apart (c ∷ text) [] = false
is_apart (c ∷ text) (d ∷ s) = not (nat_eq (code c) (code d)) || is_apart text s

-- `access_token=` cannot begin anywhere in the text, whatever stands behind it.
abbrev pub is_clean : String → Bool
is_clean [] = true
is_clean (c ∷ s) = is_apart "access_token=" (c ∷ s) && is_clean s

abbrev pub has_no_amp : String → Bool
has_no_amp [] = true
has_no_amp (c ∷ s) = not (is_amp c) && has_no_amp s

is_apart_lem :
    (text s rest : String) → is_apart text s ≡ true → behind_text text (String.◌++◌ s rest) ≡ none
is_apart_lem [] s rest h = cc
is_apart_lem (c ∷ text) [] rest h = cc
is_apart_lem (c ∷ text) (d ∷ s) rest h =
    ap (behind_text (c ∷ text)) (cons-append d s rest)
    ∙ elim (Bool-cases (nat_eq (code c) (code d))) [
      | inl e ↦ rw e (is_apart_lem text s rest (simp e at h))
      | inr e ↦ rw e refl
    ]

debug_url-clean :
    (s rest : String)
    → is_clean s ≡ true
    → debug_url (String.◌++◌ s rest) ≡ String.◌++◌ s (debug_url rest)
unfolding debug_url
debug_url-clean [] rest h = ap debug_url (nil-append rest) ∙ sym (nil-append (debug_url rest))
debug_url-clean (c ∷ s) rest h =
    let apart : is_apart "access_token=" (c ∷ s) ≡ true = ground arith in
    let clean : is_clean s ≡ true = ground arith in
    let missed : behind_text "access_token=" (c ∷ String.◌++◌ s rest) ≡ none =
      ap (behind_text "access_token=") (sym (cons-append c s rest))
      ∙ is_apart_lem "access_token=" (c ∷ s) rest apart in
    ap debug_url (cons-append c s rest)
    ∙ (ap (λ found. redacted (behind_value found) (c ∷ debug_url (String.◌++◌ s rest))) missed
        ∙ (ap (λ l. c ∷ l) (debug_url-clean s rest clean) ∙ sym (cons-append c s (debug_url rest))))

behind_text-append : (text s : String) → behind_text text (String.◌++◌ text s) ≡ some s
behind_text-append [] s = ap (behind_text []) (nil-append s)
behind_text-append (c ∷ text) s =
    let e : nat_eq (code c) (code c) ≡ true = ground arith in
    ap (behind_text (c ∷ text)) (cons-append c text s) ∙ rw e (behind_text-append text s)

from_amp-append :
    (value tail : String)
    → has_no_amp value ≡ true
    → from_amp (String.◌++◌ value tail) ≡ from_amp tail
from_amp-append [] tail h = ap from_amp (nil-append tail)
from_amp-append (c ∷ value) tail h =
    let no : is_amp c ≡ false = ground arith in
    ap from_amp (cons-append c value tail) ∙ rw no (from_amp-append value tail (ground arith))

behind_value-append :
    (value tail : String)
    → has_no_amp value ≡ true
    → (value == "") ≡ false
    → behind_value (some (String.◌++◌ value tail)) ≡ some (from_amp tail)
behind_value-append [] tail h e = cc
behind_value-append (c ∷ value) tail h e =
    let no : is_amp c ≡ false = ground arith in
    ap (λ s. behind_value (some s)) (cons-append c value tail)
    ∙ rw no (ap some (from_amp-append value tail (ground arith)))

debug_url-token :
    (value tail : String)
    → has_no_amp value ≡ true
    → (value == "") ≡ false
    → debug_url (String.◌++◌ "access_token=" (String.◌++◌ value tail))
      ≡ String.◌++◌ "access_token=***" (from_amp tail)
unfolding debug_url
debug_url-token value tail h e =
    let rest : String = String.◌++◌ value tail in
    ap debug_url (cons-append "a" "ccess_token=" rest)
    ∙ ap (λ found. redacted found ("a" ∷ debug_url (String.◌++◌ "ccess_token=" rest)))
        (ap (λ s. behind_value (behind_text "access_token=" s))
            (sym (cons-append "a" "ccess_token=" rest))
          ∙ (ap behind_value (behind_text-append "access_token=" rest)
              ∙ behind_value-append value tail h e))

module _ (encode : String → String) where
  -- `params.toString()` behind the token.
  abbrev since_text : Option String → String
  since_text none = ""
  since_text (some id) = "&" ∷ String.◌++◌ "since=" (encode id)

  abbrev socket_base : String → String
  socket_base base = String.◌++◌ base (String.◌++◌ (endpoint_path notifications_ws) "?")

  -- The text of `buildUrl`.
  abbrev pub url_text : String → SocketUrl → String
  url_text base url =
      String.◌++◌ (socket_base base)
        (String.◌++◌ "access_token=" (String.◌++◌ (encode url.access_token) (since_text url.since)))

  from_amp-since_text : (since : Option String) → from_amp (since_text since) ≡ since_text since
  from_amp-since_text none = refl
  from_amp-since_text (some id) = refl

  -- The log line of a connection has `***` for the token, and is otherwise the URL: it says nothing of
  -- the token. That is for an encoding that leaves no `&` in a value and no value empty, and a base URL
  -- in which `access_token=` cannot begin.
  pub debug_url-url_text :
      (base : String) (url : SocketUrl)
      → is_clean (socket_base base) ≡ true
      → has_no_amp (encode url.access_token) ≡ true
      → (encode url.access_token == "") ≡ false
      → debug_url (url_text base url)
        ≡ String.◌++◌ (socket_base base) (String.◌++◌ "access_token=***" (since_text url.since))
  debug_url-url_text base url clean no_amp not_empty =
      debug_url-clean (socket_base base) _ clean
      ∙ ap (String.◌++◌ (socket_base base)) (
          debug_url-token (encode url.access_token) (since_text url.since) no_amp not_empty
          ∙ ap (String.◌++◌ "access_token=***") (from_amp-since_text url.since))
