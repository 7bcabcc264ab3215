-- ===== src/Shared/Text.antt =====
-- Strings as JavaScript measures them.
use Prim.Native.Char.{Char, code}
use Prim.Native.String.{[], ◌∷◌}
use ytshare.Base.{ℕ, ◌+◌, String, if◌then◌else◌, ltb}

-- `length` of a JavaScript string: its UTF-16 code units.
abbrev pub units : Char → ℕ
units c = if ltb 65535 (code c) then 2 else 1

unfoldable pub text_length : String → ℕ
text_length [] = 0
text_length (c ∷ rest) = units c + text_length rest
