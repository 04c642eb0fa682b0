-- ===== src/Prelude/Strings/Ascii.antt =====
-- Texts of the standard library by their characters: `eq_ignore_ascii_case`, `trim`, `rsplit_once`
-- and `is_ascii_whitespace`.
use Prim.Native.Char.{Char, code}
use Prim.Native.String.{String}
use Prim.Native.Nat.{ℕ, ◌+◌}
use mathlib.Core.Bool.{Bool, true, false, ◌&&◌, ◌||◌}
use mathlib.Core.Option.{Option, none, some}
use mathlib.Core.Path.{◌≡◌, refl}
use qa_sys.Prelude.Tests.{leb, ◌==◌, if◌then◌else◌}
use qa_sys.Prelude.Strings.{push_left}

abbrev pub lower : ℕ → ℕ
lower n = if leb 65 n && leb n 90 then n + 32 else n

unfoldable pub eq_ignore_ascii_case : String → String → Bool
eq_ignore_ascii_case String.[] String.[] = true
eq_ignore_ascii_case String.[] (String.◌∷◌ d t) = false
eq_ignore_ascii_case (String.◌∷◌ c s) String.[] = false
eq_ignore_ascii_case (String.◌∷◌ c s) (String.◌∷◌ d t) =
    lower (code c) == lower (code d) && eq_ignore_ascii_case s t

-- `bytes().any(…)` for a test on ASCII, whose bytes are the characters below 128.
unfoldable pub any_char : (ℕ → Bool) → String → Bool
any_char p String.[] = false
any_char p (String.◌∷◌ c s) = p (code c) || any_char p s

abbrev pub is_ascii_whitespace : ℕ → Bool
is_ascii_whitespace n = n == 9 || (n == 10 || (n == 12 || (n == 13 || n == 32)))

-- The property `White_Space` of Unicode.
abbrev pub is_whitespace : ℕ → Bool
is_whitespace n =
    leb 9 n && leb n 13
    || (n == 32
        || (n == 133
            || (n == 160
                || (n == 5760
                    || (leb 8192 n && leb n 8202
                        || (n == 8232
                            || (n == 8233 || (n == 8239 || (n == 8287 || n == 12288)))))))))

unfoldable pub trim_start : String → String
trim_start String.[] = ""
trim_start (String.◌∷◌ c s) = if is_whitespace (code c) then trim_start s else String.◌∷◌ c s

-- A text behind a character, unless both are white space alone.
abbrev pub trimmed_cons : Char → String → String
trimmed_cons c String.[] = if is_whitespace (code c) then "" else String.◌∷◌ c ""
trimmed_cons c (String.◌∷◌ d s) = String.◌∷◌ c (String.◌∷◌ d s)

unfoldable pub trim_end : String → String
trim_end String.[] = ""
trim_end (String.◌∷◌ c s) = trimmed_cons c (trim_end s)

unfoldable pub trim : String → String
trim s = trim_end (trim_start s)

-- The pieces around the last separator of a text, given those of what follows its first character.
abbrev pub rsplit_step : ℕ → Char → String → Option (String × String) → Option (String × String)
rsplit_step sep c s (some p) = push_left c (some p)
rsplit_step sep c s none = if code c == sep then some ("", s) else none

unfoldable pub rsplit_once : ℕ → String → Option (String × String)
rsplit_once sep String.[] = none
rsplit_once sep (String.◌∷◌ c s) = rsplit_step sep c s (rsplit_once sep s)

trims : trim " a b\t " ≡ "a b"
unfolding trim trim_start trim_end
trims = refl

rsplits : rsplit_once b'+' "a+b+json" ≡ some ("a+b", "json")
unfolding rsplit_once
rsplits = refl

ignores_case : eq_ignore_ascii_case "BeArEr" "bearer" ≡ true
unfolding eq_ignore_ascii_case
ignores_case = refl
