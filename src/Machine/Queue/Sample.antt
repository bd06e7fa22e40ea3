-- ===== src/Machine/Queue/Sample.antt =====
-- A codec in the place of the libraries, for records of two ids that are sent or not.
use c_e.Common.{
  ℕ, zero, suc, ◌+◌, ◌-◌, ◌*◌, ◌<◌, ◌/◌, ◌%◌, ◌≤◌, Bool, true, false, String, [], ◌∷◌, Option, none,
  some, ◌≡◌, refl, ap, ◌∙◌, sym, arith, if◌then◌else◌, ◌==◌, length, str_eq, Option-cases, inl, inr,
}
use c_e.Common.Dict.{Dict, lookup, insert}
use c_e.Machine.Queue.{Bytes, Codec, and_then}
use c_e.Machine.Queue.Mask.{IsBytes, OnOneLine, IsSha256, IsBase64}
use c_e.Machine.Queue.Log.{IsJson}

pub data Value : Type 0 where
  flag : Bool → Value
  word : String → Value

abbrev pub entry : Bool → Bool → Dict Value
entry first sent = ("record_id", word (if first then "r-1" else "r-2")) ∷ ("sent", flag sent) ∷ []

abbrev number : Bool → ℕ
number b = if b then 1 else 0

abbrev word_is : String → Value → Bool
word_is s (word t) = str_eq t s
word_is s (flag b) = false

abbrev is_true : Value → Bool
is_true (flag b) = b
is_true (word s) = true

abbrev at : String → (Value → Bool) → Dict Value → ℕ
at k p d = elim (lookup k d) [ none ↦ 0 | some v ↦ number (p v) ]

abbrev two_bytes : Bytes → Option (Dict Value)
two_bytes (x ∷ y ∷ []) = some (entry (x == 1) (y == 1))
two_bytes _ = none

-- Two characters from "A" on for each byte.
abbrev half_bytes : Bytes → Bytes
half_bytes [] = []
half_bytes (x ∷ xs) = (x / 16 + 65) ∷ (x % 16 + 65) ∷ half_bytes xs

abbrev join_halves : Bytes → Option Bytes
join_halves [] = some []
join_halves (x ∷ []) = none
join_halves (x ∷ y ∷ xs) =
    let rest = join_halves xs in and_then rest (λ ys. some (((x - 65) * 16 + (y - 65)) ∷ ys))

abbrev replicate : ℕ → ℕ → Bytes
replicate zero x = []
replicate (suc n) x = x ∷ replicate n x

abbrev pub codec : Codec Value
codec = record {
  sha256 = λ xs. replicate 32 (length xs % 256);
  urlsafe_b64encode = half_bytes;
  urlsafe_b64decode = join_halves;
  dumps = λ d. at "record_id" (word_is "r-1") d ∷ at "sent" is_true d ∷ [];
  loads = two_bytes;
  text = word;
  boolean = flag;
  is_text = λ v s. word_is s v;
  truthy = is_true;
}

abbrev pub IsEntry : Dict Value → Type 0
IsEntry d = (first : Bool) × (sent : Bool) × (d ≡ entry first sent)

replicate-IsBytes : (n x : ℕ) → x < 256 → IsBytes (replicate n x)
replicate-IsBytes zero x h = tt
replicate-IsBytes (suc n) x h = (h, replicate-IsBytes n x h)

pub codec-IsSha256 : IsSha256 codec
codec-IsSha256 = record {
  length-sha256 = λ xs. refl;
  sha256-IsBytes = λ xs. replicate-IsBytes 32 (length xs % 256) (omega arith);
}

half_bytes_back : (xs : Bytes) → join_halves (half_bytes xs) ≡ some xs
half_bytes_back [] = refl
half_bytes_back (x ∷ xs) = ground (arith, half_bytes_back xs)

half_bytes-OnOneLine : (xs : Bytes) → OnOneLine (half_bytes xs)
half_bytes-OnOneLine [] = tt
half_bytes-OnOneLine (x ∷ xs) =
    ((ground arith, ground arith), ((ground arith, ground arith), half_bytes-OnOneLine xs))

length-half_bytes : (xs : Bytes) → length xs ≤ length (half_bytes xs)
length-half_bytes [] = omega arith
length-half_bytes (x ∷ xs) = omega (arith, length-half_bytes xs)

pub codec-IsBase64 : IsBase64 codec
codec-IsBase64 = record {
  decode-encode = λ xs h. half_bytes_back xs;
  encode-OnOneLine = λ xs h. half_bytes-OnOneLine xs;
  length-encode = length-half_bytes;
}

dumps_entry : (first sent : Bool) → codec.dumps (entry first sent) ≡ number first ∷ number sent ∷ []
dumps_entry true sent = refl
dumps_entry false sent = refl

number-byte : (b : Bool) → number b < 256
number-byte b = ground arith

at-byte : (k : String) (p : Value → Bool) (d : Dict Value) → at k p d < 256
at-byte k p d = elim (Option-cases (lookup k d)) [
  | inl e ↦ ground arith
  | inr (v, e) ↦ ground (arith, number-byte (p v))
]

two_bytes_back :
    (first sent : Bool) → two_bytes (number first ∷ number sent ∷ []) ≡ some (entry first sent)
two_bytes_back true true = refl
two_bytes_back true false = refl
two_bytes_back false true = refl
two_bytes_back false false = refl

pub codec-IsJson : IsJson codec IsEntry
codec-IsJson = record {
  dumps-IsBytes = λ d h. (at-byte "record_id" (word_is "r-1") d, (at-byte "sent" is_true d, tt));
  length-dumps = λ d h. (omega arith, omega arith);
  loads-dumps = λ d (first, sent, e). (
    entry first sent,
    ap (λ x. codec.loads (codec.dumps x)) e
        ∙ ap two_bytes (dumps_entry first sent)
        ∙ two_bytes_back first sent,
    (first, sent, refl),
    λ k. sym (ap (lookup k) e),
  );
  mark-Fits = λ d (first, sent, e). (first, true, ap (insert "sent" (flag true)) e);
}
