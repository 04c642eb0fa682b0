-- ===== src/Tests/Ciphers.antt =====
-- A crypto for the examples, which satisfies what crates/core/src/aes.rs relies on: the bytes of a text
-- are the numbers of its characters, the cipher puts one byte in front, and Base64 is unary.
use Prim.Native.Nat.{Ordering, compare, zero, suc}
use Prim.Native.Char.{Char, char, code, IsScalar, IsLt}
use qa_sys.Prelude.{
  ℕ, String, List, Option, Result, ok, err, some, none, ◌∷◌, [], ◌≡◌, refl, ap, ◌≢◌, arith,
  if◌then◌else◌, ◌∙◌, ◌+◌, ◌==◌,
}
use qa_sys.Aes.{Crypto, CryptoLaws}

abbrev AreBelow : Ordering → Ordering → Type 0
AreBelow Ordering.lt o = IsLt o
AreBelow Ordering.eq _ = ⊥
AreBelow Ordering.gt _ = ⊥

abbrev IsScalarBy : Ordering → Ordering → Ordering → Type 0
IsScalarBy Ordering.lt _ _ = Unit
IsScalarBy Ordering.eq o p = AreBelow o p
IsScalarBy Ordering.gt o p = AreBelow o p

abbrev below : (o : Ordering) → Option (IsLt o)
below Ordering.lt = some tt
below Ordering.eq = none
below Ordering.gt = none

abbrev both_below : (o p : Ordering) → Option (AreBelow o p)
both_below Ordering.lt p = below p
both_below Ordering.eq _ = none
both_below Ordering.gt _ = none

abbrev scalar_by : (o p q : Ordering) → Option (IsScalarBy o p q)
scalar_by Ordering.lt _ _ = some tt
scalar_by Ordering.eq p q = both_below p q
scalar_by Ordering.gt p q = both_below p q

below-some : (o : Ordering) (h : IsLt o) → below o ≡ some h
below-some Ordering.lt h = refl
below-some Ordering.eq h = absurd h
below-some Ordering.gt h = absurd h

both_below-some : (o p : Ordering) (h : AreBelow o p) → both_below o p ≡ some h
both_below-some Ordering.lt p h = below-some p h
both_below-some Ordering.eq p h = absurd h
both_below-some Ordering.gt p h = absurd h

scalar_by-some : (o p q : Ordering) (h : IsScalarBy o p q) → scalar_by o p q ≡ some h
scalar_by-some Ordering.lt _ _ h = refl
scalar_by-some Ordering.eq p q h = both_below-some p q h
scalar_by-some Ordering.gt p q h = both_below-some p q h

abbrev as_char : (n : ℕ) → Option (IsScalar n) → Result String Char
as_char n none = err "no character"
as_char n (some h) = ok (char n h)

abbrev of_code : ℕ → Result String Char
of_code n = as_char n (scalar_by (compare n 55296) (compare 57343 n) (compare n 1114112))

of_code-code : (c : Char) → of_code (code c) ≡ ok c
of_code-code (char n h) =
    ap (as_char n) (scalar_by-some (compare n 55296) (compare 57343 n) (compare n 1114112) h)

abbrev pub as_bytes : String → List ℕ
as_bytes String.[] = []
as_bytes (String.◌∷◌ c s) = code c ∷ as_bytes s

abbrev put_char : Result String Char → Result String String → Result String String
put_char (err e) r = err e
put_char (ok c) (err e) = err e
put_char (ok c) (ok s) = ok (String.◌∷◌ c s)

abbrev pub from_utf8 : List ℕ → Result String String
from_utf8 [] = ok ""
from_utf8 (n ∷ ns) = put_char (of_code n) (from_utf8 ns)

from_utf8-as_bytes : (s : String) → from_utf8 (as_bytes s) ≡ ok s
from_utf8-as_bytes String.[] = refl
from_utf8-as_bytes (String.◌∷◌ c s) = rw (of_code-code c, from_utf8-as_bytes s)

-- Unary: `n` marks and an end for each number.
abbrev marks : ℕ → String → String
marks zero rest = String.◌∷◌ (char 46 tt) rest
marks (suc n) rest = String.◌∷◌ (char 49 tt) (marks n rest)

abbrev unary : List ℕ → String
unary [] = ""
unary (n ∷ ns) = marks n (unary ns)

-- The numbers of a text, where `n` marks have been read.
abbrev numbers : ℕ → String → List ℕ
numbers n String.[] = []
numbers n (String.◌∷◌ c s) = if code c == 46 then n ∷ numbers 0 s else numbers (suc n) s

numbers-marks : (n k : ℕ) (s : String) → numbers k (marks n s) ≡ (k + n) ∷ numbers 0 s
numbers-marks zero k s = ap (λ m. m ∷ numbers 0 s) (omega arith)
numbers-marks (suc n) k s = numbers-marks n (suc k) s ∙ ap (λ m. m ∷ numbers 0 s) (omega arith)

numbers-unary : (ns : List ℕ) → numbers 0 (unary ns) ≡ ns
numbers-unary [] = refl
numbers-unary (n ∷ ns) =
    numbers-marks n 0 (unary ns) ∙ rw (numbers-unary ns) (ap (λ m. m ∷ ns) (omega arith))

marks-ne-empty : (n : ℕ) (s : String) → marks n s ≢ ""
marks-ne-empty zero s h = cc
marks-ne-empty (suc n) s h = cc

unary-ne-empty : (ns : List ℕ) → ns ≢ [] → unary ns ≢ ""
unary-ne-empty [] ne = absurd (ne refl)
unary-ne-empty (n ∷ ns) ne = marks-ne-empty n (unary ns)

abbrev run : List ℕ → List ℕ
run ns = 16 ∷ ns

abbrev run_back : List ℕ → Result String (List ℕ)
run_back [] = err "unpad error"
run_back (n ∷ ns) = ok ns

abbrev pub toy_crypto : Crypto
toy_crypto = record {
  as_bytes = as_bytes;
  from_utf8 = from_utf8;
  base64_encode = unary;
  base64_decode = λ s. ok (numbers 0 s);
  encryptor = λ _ _ _. ok run;
  decryptor = λ _ _ _. ok run_back;
  debug_text = λ _. "crypto error";
}

pub toy_laws : CryptoLaws toy_crypto
toy_laws = record {
  from_utf8-as_bytes = from_utf8-as_bytes;
  decode-encode = λ ns. ap ok (numbers-unary ns);
  encode-ne-empty = unary-ne-empty;
  cipher = λ _ _ _ _ _. (run, run_back, refl, refl, λ _. refl, λ _ h. cc);
}
