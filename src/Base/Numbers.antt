-- ===== src/Base/Numbers.antt =====
-- Numbers in decimal digits: what `format!` writes, and what `str::parse` reads.
use Prim.Native.Nat.{ℕ, zero, suc, ◌+◌, ◌-◌, ◌*◌, ◌/◌, ◌%◌, ◌≤◌, ◌<◌}
use mathlib.Core.Path.{◌≡◌, refl, ap, ◌∙◌}
use mathlib.Core.Bool.{Bool, true, false, ◌&&◌}
use mathlib.Core.Logic.{inl, inr}
use mathlib.Core.Option.{Option, none, some}
use mathlib.Core.List.{[], ◌∷◌, ◌++◌}
use native.Mathlib.Omega.{arith}
use seata.Base.Tests.{ltb, leb, ◌==◌, if◌then◌else◌, Bool-cases}
use seata.Base.Strings.{Text}

-- `format!("{}", n)` of a number of at most `digits` digits
unfoldable pub decimal : ℕ → ℕ → Text
decimal zero n = []
decimal (suc digits) n =
    let rest = decimal digits (n / 10) in
    let last = b'0' + n % 10 in if ltb n 10 then last ∷ [] else rest ++ last ∷ []

abbrev pub is_digit : ℕ → Bool
is_digit c = leb b'0' c && leb c b'9'

-- The digits of a number below `bound`, from the value `n` of those read.
unfoldable pub parse_digits : ℕ → ℕ → Text → Option ℕ
parse_digits bound n [] = some n
parse_digits bound n (c ∷ t) =
    let rest = parse_digits bound (n * 10 + (c - b'0')) t in
    if is_digit c then (if ltb (n * 10 + (c - b'0')) bound then rest else none) else none

-- `s.parse().ok()` into an unsigned integer below `bound`: an optional '+' and at least one digit
unfoldable pub parse_unsigned : ℕ → Text → Option ℕ
parse_unsigned bound [] = none
parse_unsigned bound (c ∷ []) = parse_digits bound 0 (c ∷ [])
parse_unsigned bound (c ∷ d ∷ t) =
    let after_sign = parse_digits bound 0 (d ∷ t) in
    let whole = parse_digits bound 0 (c ∷ d ∷ t) in if c == b'+' then after_sign else whole

-- One more digit at the end.
parse_digits-append :
    (bound n v d : ℕ) (t : Text)
    → parse_digits bound n t ≡ some v
    → d < 10
    → v * 10 + d < bound
    → parse_digits bound n (t ++ (b'0' + d) ∷ []) ≡ some (v * 10 + d)
unfolding parse_digits
parse_digits-append bound n v d [] h small fits = ground arith
parse_digits-append bound n v d (c ∷ t) h small fits =
    let rest = parse_digits-append bound (n * 10 + (c - b'0')) v d t in ground (arith, rest)

-- `10 ^ digits`
abbrev pub tens : ℕ → ℕ
tens zero = 1
tens (suc digits) = 10 * tens digits

decimal-digits :
    (bound digits n : ℕ)
    → n < tens digits
    → n < bound
    → 1 ≤ digits
    → parse_digits bound 0 (decimal digits n) ≡ some n
unfolding decimal
decimal-digits bound zero n small fits some_digit = absurd (omega (arith, some_digit))
decimal-digits bound (suc digits) n small fits some_digit = elim (Bool-cases (ltb n 10)) [
  | inl one ↦
      let under : n < 10 = ground arith in
      let digit : 0 * 10 + n % 10 ≡ n = omega (arith, under) in
      rw one (
        parse_digits-append bound 0 0 (n % 10) [] (unfold parse_digits in refl) (omega arith)
          (rw digit fits)
        ∙ ap some digit)
  | inr more ↦
      let over : 10 ≤ n = ground arith in
      let digit : n / 10 * 10 + n % 10 ≡ n = omega arith in
      let rest =
        decimal-digits bound digits (n / 10) (omega (arith, small)) (omega (arith, fits))
          (at_least_one digits (n / 10) (omega (arith, small)) (omega (arith, over))) in
      rw more (
        parse_digits-append bound 0 (n / 10) (n % 10) (decimal digits (n / 10)) rest (omega arith)
          (rw digit fits)
        ∙ ap some digit)
]
  where
    at_least_one : (d k : ℕ) → k < tens d → 1 ≤ k → 1 ≤ d
    at_least_one zero k h l = absurd (omega (arith, h, l))
    at_least_one (suc d) k h l = omega arith

-- A number is written with a digit at least, and with digits only in front.
decimal-head :
    (digits n : ℕ)
    → 1 ≤ digits
    → (c : ℕ) × (t : Text) × (decimal digits n ≡ c ∷ t) × (is_digit c ≡ true)
unfolding decimal
decimal-head zero n h = absurd (omega (arith, h))
decimal-head (suc zero) n h = elim (Bool-cases (ltb n 10)) [
  | inl one ↦ rw one (_, _, refl, ground arith)
  | inr more ↦ rw more (_, _, refl, ground arith)
]
decimal-head (suc (suc digits)) n h = elim (Bool-cases (ltb n 10)) [
  | inl one ↦ rw one (_, _, refl, ground arith)
  | inr more ↦
      let (c, t, e, digit) = decimal-head (suc digits) (n / 10) (omega arith) in
      rw (more, e) (c, _, refl, digit)
]

-- What is written is read back, if it is in the range.
pub parse_unsigned-decimal :
    (bound digits n : ℕ)
    → n < tens digits
    → n < bound
    → 1 ≤ digits
    → parse_unsigned bound (decimal digits n) ≡ some n
unfolding parse_unsigned
parse_unsigned-decimal bound digits n small fits h =
    let (c, t, e, digit) = decimal-head digits n h in
    let read = decimal-digits bound digits n small fits h in
    rw e (unsigned c t digit (rw (← e) read))
  where
    unsigned :
        (c : ℕ) (t : Text)
        → is_digit c ≡ true
        → parse_digits bound 0 (c ∷ t) ≡ some n
        → parse_unsigned bound (c ∷ t) ≡ some n
    unsigned c [] digit read = read
    unsigned c (d ∷ t) digit read =
        let no_sign : (c == b'+') ≡ false = ground arith in rw no_sign read
