-- ===== src/Prelude/Strings.antt =====
-- Texts of the standard library: `format!`, `str::split`, `split_once`, `to_string` and
-- `parse::<i64>` of integers.
pub mod Laws
pub mod Ascii
use mathlib.Core.Bool.{◌||◌}
use mathlib.Core.Path.{◌≡◌, refl}
use qa_sys.Prelude.Int.{pos, ℤ, negsuc}
use Prim.Native.Char.{Char, code}
use Prim.Native.Nat.{ℕ, zero, suc, ◌/◌, ◌*◌, ◌%◌, ◌+◌, ◌-◌}
use Prim.Native.String
use Prim.Native.String.{String}
use mathlib.Core.Option.{Option, none, some}
use mathlib.Core.List.{List, [], ◌∷◌}
use qa_sys.Prelude.Tests.{◌==◌, if◌then◌else◌, ltb}

-- `format!` with its pieces and arguments in order.
abbrev pub format : List String → String
format [] = ""
format (s ∷ ss) = String.◌++◌ s (format ss)

abbrev pub push_front : Char → List String → List String
push_front c [] = String.◌∷◌ c "" ∷ []
push_front c (s ∷ ss) = String.◌∷◌ c s ∷ ss

-- `s.split(sep)` for a one-character separator.
unfoldable pub split : ℕ → String → List String
split sep String.[] = "" ∷ []
split sep (String.◌∷◌ c s) = if code c == sep then "" ∷ split sep s else push_front c (split sep s)

abbrev pub push_left : Char → Option (String × String) → Option (String × String)
push_left c none = none
push_left c (some (a, b)) = some (String.◌∷◌ c a, b)

-- `s.split_once(sep)`.
unfoldable pub split_once : ℕ → String → Option (String × String)
split_once sep String.[] = none
split_once sep (String.◌∷◌ c s) =
    if code c == sep then some ("", s) else push_left c (split_once sep s)

-- The character of a digit.
unfoldable pub digit_char : ℕ → Char
digit_char zero = "0"
digit_char (suc zero) = "1"
digit_char (suc (suc zero)) = "2"
digit_char (suc (suc (suc zero))) = "3"
digit_char (suc (suc (suc (suc zero)))) = "4"
digit_char (suc (suc (suc (suc (suc zero))))) = "5"
digit_char (suc (suc (suc (suc (suc (suc zero)))))) = "6"
digit_char (suc (suc (suc (suc (suc (suc (suc zero))))))) = "7"
digit_char (suc (suc (suc (suc (suc (suc (suc (suc zero)))))))) = "8"
digit_char _ = "9"

-- The decimal digits of `n` in front of `out`; `n < 10 ^ fuel`, and every `i64` has 19 digits at
-- most.
unfoldable pub show_digits : ℕ → ℕ → String → String
unfolding digit_char
show_digits zero n out = out
show_digits (suc fuel) n out =
    let rest = show_digits fuel (n / 10) (String.◌∷◌ (digit_char (n % 10)) out) in
    if ltb n 10 then String.◌∷◌ (digit_char n) out else rest

-- `{}` of an `i64`.
unfoldable pub show_i64 : ℤ → String
show_i64 (pos n) = show_digits 20 n ""
show_i64 (negsuc n) = String.◌∷◌ "-" (show_digits 20 (suc n) "")

-- `{}` of a `u64`.
unfoldable pub show_u64 : ℕ → String
show_u64 n = show_digits 20 n ""

-- `std::num::ParseIntError`.
pub data ParseIntError : Type 0 where
  empty invalid_digit pos_overflow neg_overflow : ParseIntError

pub data Parsed : Type 0 where
  value : ℤ → Parsed
  bad : ParseIntError → Parsed

-- The digits of a magnitude of at most `limit`, read after `acc`.
unfoldable pub scan_digits : ℕ → ParseIntError → (ℕ → ℤ) → ℕ → String → Parsed
scan_digits limit over done acc String.[] = value (done acc)
scan_digits limit over done acc (String.◌∷◌ c s) =
    let rest = scan_digits limit over done (acc * 10 + (code c - b'0')) s in
    if ltb (code c) b'0' || ltb b'9' (code c)
    then bad invalid_digit
    else if ltb limit (acc * 10 + (code c - b'0'))
    then bad over
    else rest

abbrev negated : ℕ → ℤ
negated zero = pos 0
negated (suc n) = negsuc n

-- `s.parse::<i64>()` after a sign: a sign alone is no number.
abbrev signed_digits : ℕ → ParseIntError → (ℕ → ℤ) → String → Parsed
signed_digits limit over done String.[] = bad invalid_digit
signed_digits limit over done (String.◌∷◌ c s) = scan_digits limit over done 0 (String.◌∷◌ c s)

-- `s.parse::<i64>()`.
unfoldable pub parse_i64 : String → Parsed
parse_i64 String.[] = bad empty
parse_i64 (String.◌∷◌ c s) =
    if code c == b'-'
    then signed_digits 9223372036854775808 neg_overflow negated s
    else if code c == b'+'
    then signed_digits 9223372036854775807 pos_overflow pos s
    else scan_digits 9223372036854775807 pos_overflow pos 0 (String.◌∷◌ c s)

-- The standard library's text of the error.
unfoldable pub parse_error_text : ParseIntError → String
parse_error_text empty = "cannot parse integer from empty string"
parse_error_text invalid_digit = "invalid digit found in string"
parse_error_text pos_overflow = "number too large to fit in target type"
parse_error_text neg_overflow = "number too small to fit in target type"

shows : show_i64 (pos 1700086400) ≡ "1700086400"
unfolding show_i64 show_digits
shows = refl

parses : parse_i64 "-9223372036854775808" ≡ value (negsuc 9223372036854775807)
unfolding parse_i64 scan_digits
parses = refl

overflows : parse_i64 "9223372036854775808" ≡ bad pos_overflow
unfolding parse_i64 scan_digits
overflows = refl

splits : split b':' "a:b::c" ≡ "a" ∷ "b" ∷ "" ∷ "c" ∷ []
unfolding split
splits = refl
