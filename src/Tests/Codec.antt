-- ===== src/Tests/Codec.antt =====
-- A codec of sessions that keeps `SessionCodec`: texts are written with a mark before each character
-- and a full stop behind the last.
use Prim.Native.Char.{Char, code}
use Prim.Native.String.{[], ◌∷◌}
use ytshare.Base.{
  String, ◌≡◌, refl, true, ◌≢◌, Option, none, some, if◌then◌else◌, nat_eq, truthy, truthy-of-ne,
}
use ytshare.Auth.Types.{AuthSession}
use ytshare.Auth.Session.{SessionCodec, Parsed, throws, value}

abbrev put : String → String → String
put [] rest = "." ∷ rest
put (c ∷ s) rest = "x" ∷ c ∷ put s rest

abbrev cons_to : Char → Option (String × String) → Option (String × String)
cons_to c none = none
cons_to c (some (s, rest)) = some (c ∷ s, rest)

abbrev get : String → Option (String × String)
get [] = none
get (m ∷ []) = if nat_eq (code m) b'.' then some ("", "") else none
get (m ∷ c ∷ t) =
    let more = cons_to c (get t) in if nat_eq (code m) b'.' then some ("", c ∷ t) else more

get-put : (s rest : String) → get (put s rest) ≡ some (s, rest)
get-put [] [] = refl
get-put [] (c ∷ t) = refl
get-put (c ∷ s) rest = rw (get-put s rest) refl

put-ne : (s rest : String) → put s rest ≢ ""
put-ne [] rest = cc
put-ne (c ∷ s) rest = cc

infixl 5 ◌>>=◌
abbrev ◌>>=◌ : Option (String × String) → (String × String → Parsed) → Parsed
none >>= k = throws
some p >>= k = k p

abbrev encode : AuthSession → String
encode s = put s.user.id (
    put s.user.email
      (put s.user.name (put s.access_token (put s.refresh_token (put s.expires_at "")))))

abbrev decode : String → Parsed
decode t = do
  (id, t₁) ← get t
  (email, t₂) ← get t₁
  (name, t₃) ← get t₂
  (access, t₄) ← get t₃
  (refresh, t₅) ← get t₄
  (expires, _) ← get t₅
  value (
      some (record {
        user = record { id = id; email = email; name = name };
        access_token = access;
        refresh_token = refresh;
        expires_at = expires;
      }))

pub encode-truthy : (s : AuthSession) → truthy (encode s) ≡ true
encode-truthy s = truthy-of-ne (encode s) (put-ne s.user.id _)

pub decode-encode : (s : AuthSession) → decode (encode s) ≡ value (some s)
decode-encode s = simp get-put refl

abbrev pub codec : SessionCodec
codec = record {
  stringify = encode;
  parse = decode;
  stringify_truthy = encode-truthy;
  parse-stringify = decode-encode;
}
