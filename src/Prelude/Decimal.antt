-- ===== src/Prelude/Decimal.antt =====
-- `u64`'s `Display` and `FromStr`, and `str::split`, over texts.
use Prim.Native.Nat.{ℕ, zero, suc, ◌+◌, ◌-◌, ◌*◌, ◌/◌, ◌%◌, ◌^◌, ◌≤◌, ◌<◌}
use mathlib.Core.Path.{◌≡◌, refl}
use mathlib.Core.Bool.{Bool, ◌&&◌}
use mathlib.Core.List.{[], ◌∷◌, ◌++◌}
use mathlib.Core.Option.{Option, none, some}
use mathlib.Core.Logic.{inl, inr}
use native.Mathlib.Nat.{pow-suc}
use native.Mathlib.Omega.{arith}
use read_rpc.Prelude.Tests.{ltb, leb, ◌==◌, if◌then◌else◌, Bool-cases}
use read_rpc.Prelude.Lists.{All, All-append, length, length-append}
use read_rpc.Prelude.Words.{Text, u64_mod}

-- The digits, most significant first; twenty are enough for a `u64`.
unfoldable pub digits : ℕ → ℕ → Text
digits zero n = []
digits (suc f) n =
    let more = digits f (n / 10) in if ltb n 10 then (48 + n) ∷ [] else more ++ ((48 + n % 10) ∷ [])

abbrev pub u64_to_string : ℕ → Text
u64_to_string n = digits 20 n

abbrev is_digit : ℕ → Bool
is_digit c = leb 48 c && leb c 57

-- The value so far, times ten, plus a digit, as long as it fits.
abbrev push_digit : Option ℕ → ℕ → Option ℕ
push_digit none c = none
push_digit (some acc) c =
    if is_digit c && ltb (acc * 10 + (c - 48)) u64_mod then some (acc * 10 + (c - 48)) else none

unfoldable pub parse_digits : Option ℕ → Text → Option ℕ
parse_digits acc [] = acc
parse_digits acc (c ∷ cs) = parse_digits (push_digit acc c) cs

-- A leading `+` is skipped, and a text with no digit is refused.
unfoldable pub parse_u64 : Text → Option ℕ
parse_u64 [] = none
parse_u64 (c ∷ []) = parse_digits (some 0) (c ∷ [])
parse_u64 (c ∷ d ∷ cs) = parse_digits (some 0) (if c == b'+' then d ∷ cs else c ∷ d ∷ cs)

parse_digits-append :
    (acc : Option ℕ) (xs ys : Text)
    → parse_digits acc (xs ++ ys) ≡ parse_digits (parse_digits acc xs) ys
unfolding parse_digits
parse_digits-append acc [] ys = refl
parse_digits-append acc (c ∷ xs) ys = parse_digits-append (push_digit acc c) xs ys

parse_digits-digits :
    (f n : ℕ) → n < 10 ^ f → 0 < f → n < u64_mod → parse_digits (some 0) (digits f n) ≡ some n
unfolding digits parse_digits
parse_digits-digits zero n h p k = absurd (omega arith)
parse_digits-digits (suc zero) n h p k = elim (Bool-cases (ltb n 10)) [
  | inl small ↦ rw small (ground arith)
  | inr large ↦ absurd (ground arith)
]
parse_digits-digits (suc (suc f)) n h p k = elim (Bool-cases (ltb n 10)) [
  | inl small ↦ rw small (ground arith)
  | inr large ↦
      let top : n / 10 < 10 ^ suc f = omega (arith, pow-suc 10 (suc f)) in
      rw
        (
          large,
          parse_digits-append (some 0) (digits (suc f) (n / 10)) ((48 + n % 10) ∷ []),
          parse_digits-digits (suc f) (n / 10) top (omega arith) (omega arith),
        )
        (ground arith)
]

-- No digit is an underscore or a sign.
pub digits-IsDigit : (f n : ℕ) → All (λ c. (48 ≤ c) × (c ≤ 57)) (digits f n)
unfolding digits
digits-IsDigit zero n = tt
digits-IsDigit (suc f) n = elim (Bool-cases (ltb n 10)) [
  | inl small ↦ rw small ((omega arith, ground arith), tt)
  | inr large ↦
      rw large (All-append _ (digits f (n / 10)) _ (digits-IsDigit f (n / 10)) (omega arith))
]

parse_unsigned :
    (t : Text) (n : ℕ)
    → All (λ c. (48 ≤ c) × (c ≤ 57)) t
    → parse_digits (some 0) t ≡ some n
    → 0 < length t
    → parse_u64 t ≡ some n
unfolding parse_u64
parse_unsigned [] n d h l = absurd (omega arith)
parse_unsigned (c ∷ []) n d h l = h
parse_unsigned (c ∷ e ∷ cs) n d h l = ground arith

length-digits : (f n : ℕ) → 0 < length (digits (suc f) n)
unfolding digits
length-digits f n = elim (Bool-cases (ltb n 10)) [
  | inl small ↦ rw small (omega arith)
  | inr large ↦ rw large (omega (arith, length-append (digits f (n / 10)) ((48 + n % 10) ∷ [])))
]

-- A number that fits in 64 bits is read back from its decimal text.
pub parse_u64-to_string : (n : ℕ) → n < u64_mod → parse_u64 (u64_to_string n) ≡ some n
parse_u64-to_string n h =
    parse_unsigned (u64_to_string n) n (digits-IsDigit 20 n)
      (parse_digits-digits 20 n (omega arith) (omega arith) h) (length-digits 19 n)
