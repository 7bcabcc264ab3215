-- ===== src/Tests/Accounts.antt =====
-- The accounts, with libraries that write the claims of a token out.
use Prim.Native.String.{[], ◌∷◌}
use Prim.Native.Char.{Char, code}
use ytshare.Base.{
  ℕ, zero, suc, ◌<◌, ◌≤◌, ltb, String, ◌≡◌, refl, sym, ap, ◌∙◌, false, Option, none, some, [], ◌∷◌,
  ◌++◌, if◌then◌else◌, nat_eq, ◌==◌, eq_refl, eq_iff, Bool-cases, inl, inr, arith,
}
use text.Mathlib.TextLemmas.{cons≢nil}
use ytshare.Backend.Accounts.{
  TokenKind, access, refresh, Claims, JwtConfig, AuthLibrary, SignUpRequest, SignUpCalls, Response,
  granted, sign_up,
}
use ytshare.Http.{bearer}
use ytshare.Shared.Requests.{get_unread_count}
use ytshare.Backend.Routing.{handled, unauthorized}
use ytshare.Backend.Routing.Served.{reach_call, reach_call-served}
use ytshare.Backend.Accounts.Tokens.{AuthLibraryLaws, ExpiryLaw}
use ytshare.Backend.Accounts.Sessions.{IsWelcome, sign_up-IsWelcome}

abbrev ones : ℕ → String → String
ones zero s = "0" ∷ s
ones (suc n) s = "1" ∷ ones n s

abbrev one_more : Option (ℕ × String) → Option (ℕ × String)
one_more none = none
one_more (some (n, s)) = some (suc n, s)

abbrev read : String → Option (ℕ × String)
read [] = none
read (c ∷ s) = if nat_eq (code c) b'0' then some (0, s) else one_more (read s)

read-ones : (n : ℕ) (s : String) → read (ones n s) ≡ some (n, s)
read-ones zero s = refl
read-ones (suc n) s = ap one_more (read-ones n s)

abbrev letter : TokenKind → Char
letter access = "a"
letter refresh = "r"

abbrev encode : Claims → String
encode claims = letter claims.kind ∷ ones claims.issued_at (ones claims.expires_at claims.user_id)

abbrev with_expiry : TokenKind → ℕ → Option (ℕ × String) → Option Claims
with_expiry kind issued none = none
with_expiry kind issued (some (expires, user)) =
    some (record { user_id = user; kind = kind; issued_at = issued; expires_at = expires })

abbrev with_issue : TokenKind → Option (ℕ × String) → Option Claims
with_issue kind none = none
with_issue kind (some (issued, s)) = with_expiry kind issued (read s)

abbrev decode : String → Option Claims
decode [] = none
decode (c ∷ s) = with_issue (if nat_eq (code c) b'a' then access else refresh) (read s)

decode-kind :
    (kind : TokenKind) (user : String) (issued expires : ℕ)
    → with_issue kind (read (ones issued (ones expires user)))
      ≡ some (record { user_id = user; kind = kind; issued_at = issued; expires_at = expires })
decode-kind kind user issued expires =
    ap (with_issue kind) (read-ones issued (ones expires user))
    ∙ ap (with_expiry kind issued) (read-ones expires user)

decode-letter :
    (kind : TokenKind) (s : String) → decode (letter kind ∷ s) ≡ with_issue kind (read s)
decode-letter access s = refl
decode-letter refresh s = refl

decode-encode : (claims : Claims) → decode (encode claims) ≡ some claims
decode-encode claims =
    decode-letter claims.kind (ones claims.issued_at (ones claims.expires_at claims.user_id))
    ∙ decode-kind claims.kind claims.user_id claims.issued_at claims.expires_at

encode-not_empty : (claims : Claims) → (encode claims == "") ≡ false
encode-not_empty claims = elim (Bool-cases (encode claims == "")) [
  | inl empty ↦ absurd (cons≢nil ((eq_iff (encode claims) "").0 empty))
  | inr other ↦ other
]

abbrev unexpired : ℕ → Option Claims → Option Claims
unexpired now none = none
unexpired now (some claims) = if ltb now claims.expires_at then some claims else none

unexpired-live :
    (now : ℕ) (claims : Claims)
    → now < claims.expires_at
    → unexpired now (some claims) ≡ some claims
unexpired-live now claims live = ground arith

unexpired-over :
    (now : ℕ) (claims : Claims) → claims.expires_at ≤ now → unexpired now (some claims) ≡ none
unexpired-over now claims over = ground arith

unexpired-eq :
    (now : ℕ) (claims claims' : Claims)
    → unexpired now (some claims) ≡ some claims'
    → claims' ≡ claims
unexpired-eq now claims claims' e = ground arith

abbrev pub lib : AuthLibrary
lib = record {
  trim_space = λ s. s;
  to_lower = λ s. s;
  hash = λ salt password. some password;
  compare = λ hash password. hash == password;
  sign = λ claims secret. some (encode claims);
  parse = λ now secret token. unexpired now (decode token);
}

some_eq {ℓ} : {A : Type ℓ} {x y : A} → some x ≡ some y → x ≡ y
some_eq e = cc e

decode-signed :
    (claims : Claims) (token : String)
    → some (encode claims) ≡ some token
    → decode token ≡ some claims
decode-signed claims token e = ap decode (sym (some_eq e)) ∙ decode-encode claims

expiry : ExpiryLaw lib
expiry claims secret secret' token now e over =
    ap (unexpired now) (decode-signed claims token e) ∙ unexpired-over now claims over

laws : AuthLibraryLaws lib
laws = record {
  signed = λ claims secret token now e live.
      ap (unexpired now) (decode-signed claims token e) ∙ unexpired-live now claims live;
  carried = λ claims claims' secret secret' token now e parsed.
      unexpired-eq now claims claims'
        (sym (ap (unexpired now) (decode-signed claims token e)) ∙ parsed);
  blank = refl;
  trimmed = λ claims secret token e. refl;
  not_empty =
      λ claims secret token e. ap (λ t. t == "") (sym (some_eq e)) ∙ encode-not_empty claims;
  matches = λ salt password hash e. ap (λ h. h == password) (sym (some_eq e)) ∙ eq_refl password;
}

abbrev pub cfg : JwtConfig
cfg = record { access_secret = "as"; refresh_secret = "rs"; access_ttl = 5; refresh_ttl = 9 }

abbrev pub alice_new : SignUpRequest
alice_new = record { email = "a@b.c"; name = "Alice"; password = "secret" }

abbrev pub calls : SignUpCalls
calls = record { salt = ""; id = "u1"; now = 0; find_fails = false; create_fails = false }

abbrev given : Response
given = record {
  user_id = "u1";
  user_email = "a@b.c";
  user_name = "Alice";
  access_token = "a0111110u1";
  refresh_token = "r01111111110u1";
  expires_at = 5;
}

signs_up : (sign_up lib cfg calls alice_new []).1 ≡ granted given
unfolding sign_up
signs_up = refl

sign_up-IsWelcome_example :
    IsWelcome lib cfg calls alice_new given
      ((sign_up lib cfg calls alice_new []).0 ++ [])
      7
      "a@b.c"
      calls
      alice_new
sign_up-IsWelcome_example =
    sign_up-IsWelcome lib laws expiry cfg calls calls alice_new alice_new [] [] given 7 "a@b.c"
      signs_up refl refl refl

reach_call-served_example :
    (reach_call lib laws cfg 3 get_unread_count (bearer "a0111110u1") ≡ handled (some "u1"))
    × (reach_call lib laws cfg 3 get_unread_count "" ≡ unauthorized)
reach_call-served_example =
    reach_call-served lib laws cfg get_unread_count "u1" "a0111110u1" 0 3 refl (omega arith)
