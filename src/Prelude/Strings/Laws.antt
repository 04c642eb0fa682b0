-- ===== src/Prelude/Strings/Laws.antt =====
-- Laws of the texts: splitting what was joined, and parsing what was printed.
use native.Mathlib.Omega.{arith}
use mathlib.Core.Logic.{◌≢◌}
use mathlib.Core.List.{◌∷◌, []}
use qa_sys.Prelude.Int.{ℤ, i64_half, pos}
use mathlib.Core.Path.{◌≡◌, refl, ◌∙◌, ap, sym}
use Prim.Native.Char.{Char, code}
use Prim.Native.String.{String}
use qa_sys.Prelude.Strings.{
  digit_char, split, ParseIntError, scan_digits, show_digits, parse_i64, show_i64, value,
  pos_overflow,
}
use Prim.Native.Nat.{ℕ, ◌<◌, ◌+◌, ◌*◌, ◌^◌, suc, ◌≤◌, zero, ◌/◌, ◌-◌, ◌%◌}
use Prim.Native.String
use native.Mathlib.Decide.{dec_lt}
use native.Mathlib.Nat.{pow-suc}
use text.Mathlib.TextLemmas.{nil-append, cons-append}

-- No character of the text is the separator.
abbrev pub IsFree : ℕ → String → Type 0
IsFree sep String.[] = Unit
IsFree sep (String.◌∷◌ c s) = (code c ≢ sep) × IsFree sep s

pub split-free : (sep : ℕ) (s : String) → IsFree sep s → split sep s ≡ s ∷ []
unfolding split
split-free sep String.[] h = refl
split-free sep (String.◌∷◌ c s) (p, h) = ground (arith, split-free sep s h)

-- A part that holds no separator, a separator, and the rest.
pub split-join :
    (sep : Char) (s rest : String)
    → IsFree (code sep) s
    → split (code sep) (String.◌++◌ s (String.◌∷◌ sep rest)) ≡ s ∷ split (code sep) rest
unfolding split
split-join sep String.[] rest h = rw nil-append (ground arith)
split-join sep (String.◌∷◌ c s) rest (p, h) =
    rw cons-append (ground (arith, split-join sep s rest h))

colon : (rest : String) → String.◌++◌ ":" rest ≡ String.◌∷◌ ":" rest
colon rest = cons-append ":" "" rest ∙ ap (String.◌∷◌ ":") (nil-append rest)

-- `format!("{}:{}", s, rest)`, split at its colons.
pub split-colon :
    (s rest : String)
    → IsFree b':' s
    → split b':' (String.◌++◌ s (String.◌++◌ ":" rest)) ≡ s ∷ split b':' rest
split-colon s rest h = rw (colon rest) (split-join ":" s rest h)

-- The character of a digit is that digit.
digit_code : (d : ℕ) → d < 10 → code (digit_char d) ≡ b'0' + d
unfolding digit_char
digit_code zero h = refl
digit_code (suc zero) h = refl
digit_code (suc (suc zero)) h = refl
digit_code (suc (suc (suc zero))) h = refl
digit_code (suc (suc (suc (suc zero)))) h = refl
digit_code (suc (suc (suc (suc (suc zero))))) h = refl
digit_code (suc (suc (suc (suc (suc (suc zero)))))) h = refl
digit_code (suc (suc (suc (suc (suc (suc (suc zero))))))) h = refl
digit_code (suc (suc (suc (suc (suc (suc (suc (suc zero)))))))) h = refl
digit_code (suc (suc (suc (suc (suc (suc (suc (suc (suc zero))))))))) h = refl
digit_code (suc (suc (suc (suc (suc (suc (suc (suc (suc (suc n)))))))))) h = absurd (omega arith)

show_digits_small :
    (fuel n : ℕ) (rest : String)
    → n < 10
    → show_digits (suc fuel) n rest ≡ String.◌∷◌ (digit_char n) rest
unfolding show_digits
show_digits_small fuel n rest h = ground arith

show_digits_large :
    (fuel n : ℕ) (rest : String)
    → 10 ≤ n
    → show_digits (suc fuel) n rest
      ≡ show_digits fuel (n / 10) (String.◌∷◌ (digit_char (n % 10)) rest)
unfolding show_digits
show_digits_large fuel n rest h = ground arith

module _ (limit : ℕ) (over : ParseIntError) (done : ℕ → ℤ) where
  scan_digit :
      (acc d : ℕ) (rest : String)
      → d < 10
      → acc * 10 + d ≤ limit
      → scan_digits limit over done acc (String.◌∷◌ (digit_char d) rest)
        ≡ scan_digits limit over done (acc * 10 + d) rest
  unfolding scan_digits
  scan_digit acc d rest h le =
      let e : b'0' + d - b'0' ≡ d = omega arith in rw (digit_code d h, e) (ground arith)

  -- The digits of a number, read from 0, are the number.
  scan-show :
      (fuel n : ℕ) (rest : String)
      → n < 10 ^ fuel
      → n ≤ limit
      → scan_digits limit over done 0 (show_digits fuel n rest) ≡ scan_digits limit over done n rest
  unfolding show_digits
  scan-show zero n rest h le = let e : n ≡ 0 = omega arith in rw e
  scan-show (suc fuel) n rest h le = elim (dec_lt n 10) [
    | yes small ↦ rw (show_digits_small fuel n rest small) (
        scan_digit 0 n rest small (omega arith)
        ∙ ap (λ k. scan_digits limit over done k rest) (omega arith))
    | no large ↦ rw (show_digits_large fuel n rest (omega arith)) (
        scan-show fuel (n / 10) (String.◌∷◌ (digit_char (n % 10)) rest)
          (omega (arith, pow-suc 10 fuel)) (omega arith)
        ∙ scan_digit (n / 10) (n % 10) rest (omega arith) (omega arith)
        ∙ ap (λ k. scan_digits limit over done k rest) (omega arith))
  ]

-- The first character of a printed number is a digit.
show_digits-head :
    (fuel n : ℕ) (rest : String)
    → (d : ℕ) × (s : String) × (d < 10)
      × (show_digits (suc fuel) n rest ≡ String.◌∷◌ (digit_char d) s)
unfolding show_digits
show_digits-head zero n rest = elim (dec_lt n 10) [
  | yes small ↦ (n, rest, small, show_digits_small 0 n rest small)
  | no large ↦ (n % 10, rest, omega arith, show_digits_large 0 n rest (omega arith))
]
show_digits-head (suc fuel) n rest = elim (dec_lt n 10) [
  | yes small ↦ (n, rest, small, show_digits_small (suc fuel) n rest small)
  | no large ↦
      let (d, s, h, e) = show_digits-head fuel (n / 10) (String.◌∷◌ (digit_char (n % 10)) rest) in
      (d, s, h, show_digits_large (suc fuel) n rest (omega arith) ∙ e)
]

-- A text that begins with a digit has no sign.
parse_i64_digit :
    (d : ℕ) (s : String)
    → d < 10
    → parse_i64 (String.◌∷◌ (digit_char d) s)
      ≡ scan_digits 9223372036854775807 pos_overflow pos 0 (String.◌∷◌ (digit_char d) s)
unfolding parse_i64
parse_i64_digit d s h = rw (digit_code d h) (ground arith)

-- `parse::<i64>()` reads back a number that was printed.
pub parse-show : (n : ℕ) → n < i64_half → parse_i64 (show_i64 (pos n)) ≡ value (pos n)
unfolding show_i64 scan_digits
parse-show n h =
    let (d, s, small, e) = show_digits-head 19 n "" in
    rw e (
      parse_i64_digit d s small
      ∙ ap (scan_digits 9223372036854775807 pos_overflow pos 0) (sym e)
      ∙ scan-show 9223372036854775807 pos_overflow pos 20 n "" (omega arith) (omega arith))

-- Printed digits hold no colon.
show_digits-IsFree :
    (fuel n : ℕ) (rest : String) → IsFree b':' rest → IsFree b':' (show_digits fuel n rest)
unfolding show_digits
show_digits-IsFree zero n rest h = h
show_digits-IsFree (suc fuel) n rest h = elim (dec_lt n 10) [
  | yes small ↦ rw (show_digits_small fuel n rest small) (rw (digit_code n small) (omega arith), h)
  | no large ↦ rw (show_digits_large fuel n rest (omega arith)) (
      show_digits-IsFree fuel (n / 10) (String.◌∷◌ (digit_char (n % 10)) rest)
        (rw (digit_code (n % 10) (omega arith)) (omega arith), h))
]

pub show-IsFree : (n : ℕ) → IsFree b':' (show_i64 (pos n))
unfolding show_i64
show-IsFree n = show_digits-IsFree 20 n "" tt
