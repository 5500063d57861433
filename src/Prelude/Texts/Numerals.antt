-- ===== src/Prelude/Texts/Numerals.antt =====
-- Numbers in texts: `from_str_radix` and `parse` of an unsigned type whose greatest value is
-- `limit`, `to_string`, and `{:02x}`.
use Prim.Native.Nat.{ℕ, zero, suc, ◌+◌, ◌-◌, ◌*◌, ◌/◌, ◌%◌, ◌^◌, ◌≤◌, ◌<◌}
use mathlib.Core.Path.{◌≡◌, refl, ap, ◌∙◌}
use mathlib.Core.Bool.{false, ◌&&◌}
use mathlib.Core.List.{List, [], ◌∷◌, ◌++◌}
use mathlib.Core.Option.{Option, none, some}
use mathlib.Core.Logic.{inl, inr}
use native.Mathlib.Omega.{arith}
use native.Mathlib.Numerals.{unary_clauses}
use rumsh.Prelude.Lists.{is_empty}
use rumsh.Prelude.Tests.{ltb, leb, ◌==◌, if◌then◌else◌, Bool-cases}

-- `char::to_digit`.
abbrev pub digit_value : ℕ → Option ℕ
digit_value c =
    if leb b'0' c && leb c b'9'
    then some (c - b'0')
    else if leb b'a' c && leb c b'z'
    then some (c - b'a' + 10)
    else if leb b'A' c && leb c b'Z'
    then some (c - b'A' + 10)
    else none

-- One digit more, with the overflow checks.
abbrev pub add_digit : ℕ → ℕ → ℕ → Option ℕ → Option ℕ
add_digit radix limit acc none = none
add_digit radix limit acc (some d) =
    if ltb d radix && leb (acc * radix + d) limit then some (acc * radix + d) else none

abbrev pub then_digits : (ℕ → Option ℕ) → Option ℕ → Option ℕ
then_digits more none = none
then_digits more (some acc) = more acc

unfoldable pub parse_digits : ℕ → ℕ → ℕ → List ℕ → Option ℕ
parse_digits radix limit acc [] = some acc
parse_digits radix limit acc (c ∷ s) =
    then_digits (λ next. parse_digits radix limit next s)
      (add_digit radix limit acc (digit_value c))

-- A plus sign may stand in front of the digits; an empty text is no number.
unfoldable pub parse_uint : ℕ → ℕ → List ℕ → Option ℕ
unfolding parse_digits
parse_uint radix limit [] = none
parse_uint radix limit (c ∷ []) = parse_digits radix limit 0 (c ∷ [])
parse_uint radix limit (c ∷ d ∷ s) =
    if c == b'+' then parse_digits radix limit 0 (d ∷ s) else parse_digits radix limit 0 (c ∷ d ∷ s)

abbrev pub parse_u16 : List ℕ → Option ℕ
parse_u16 s = parse_uint 10 65535 s

-- `to_string`, of a number with at most `fuel` digits.
unfoldable pub decimal : ℕ → ℕ → List ℕ
decimal zero n = []
decimal (suc fuel) n =
    let front = decimal fuel (n / 10) in
    if ltb n 10 then (b'0' + n) ∷ [] else front ++ (b'0' + n % 10) ∷ []

-- A `u16` has at most five digits.
unfoldable pub show_u16 : ℕ → List ℕ
unfolding decimal
show_u16 n = decimal 5 n

unfoldable pub hex_digit : ℕ → ℕ
hex_digit d = if ltb d 10 then b'0' + d else b'a' + (d - 10)

-- `{:02x}` of a byte.
unfoldable pub hex_byte : ℕ → List ℕ
unfolding hex_digit
hex_byte b = hex_digit (b / 16) ∷ hex_digit (b % 16) ∷ []

-- Characters between two bounds, all of them.
abbrev pub Within : ℕ → ℕ → List ℕ → Type 0
Within lo hi [] = Unit
Within lo hi (c ∷ s) = (lo ≤ c) × (c ≤ hi) × Within lo hi s

pub Within-append :
    (lo hi : ℕ) (s t : List ℕ) → Within lo hi s → Within lo hi t → Within lo hi (s ++ t)
Within-append lo hi [] t ws wt = wt
Within-append lo hi (c ∷ s) t (a, b, ws) wt = (a, b, Within-append lo hi s t ws wt)

pub decimal-Within : (fuel n : ℕ) → Within b'0' b'9' (decimal fuel n)
unfolding decimal
decimal-Within zero n = tt
decimal-Within (suc fuel) n = elim (Bool-cases (ltb n 10)) [
  | inl one ↦ rw one (ground arith)
  | inr more ↦ rw more (
      Within-append b'0' b'9' (decimal fuel (n / 10)) ((b'0' + n % 10) ∷ [])
        (decimal-Within fuel (n / 10)) (omega arith))
]

parse_digits-append :
    (radix limit acc : ℕ) (s : List ℕ) (c : ℕ)
    → parse_digits radix limit acc (s ++ c ∷ [])
      ≡ then_digits (λ n. add_digit radix limit n (digit_value c)) (parse_digits radix limit acc s)
unfolding parse_digits
parse_digits-append radix limit acc [] c = then_some (add_digit radix limit acc (digit_value c))
  where
    then_some : (o : Option ℕ) → then_digits (λ next. some next) o ≡ o
    then_some none = refl
    then_some (some n) = refl
parse_digits-append radix limit acc (d ∷ s) c =
    step (add_digit radix limit acc (digit_value d))
      (λ next. parse_digits-append radix limit next s c)
  where
    step :
        (o : Option ℕ)
        → ((next : ℕ)
            → parse_digits radix limit next (s ++ c ∷ [])
              ≡ then_digits
                  (λ n. add_digit radix limit n (digit_value c))
                  (parse_digits radix limit next s))
        → then_digits (λ next. parse_digits radix limit next (s ++ c ∷ [])) o
          ≡ then_digits
              (λ n. add_digit radix limit n (digit_value c))
              (then_digits (λ next. parse_digits radix limit next s) o)
    step none ih = refl
    step (some next) ih = ih next

add_decimal :
    (limit acc d : ℕ)
    → d < 10
    → acc * 10 + d ≤ limit
    → add_digit 10 limit acc (digit_value (b'0' + d)) ≡ some (acc * 10 + d)
add_decimal limit acc d h fits = ground arith

tenth-lt : (k n : ℕ) → n < 10 ^ suc k → n / 10 < 10 ^ k
tenth-lt k n h =
    let wide : 10 ^ suc k ≡ 10 * 10 ^ k = simp unary_clauses (omega arith) in omega arith

parse_digits-decimal :
    (limit fuel n : ℕ)
    → n ≤ limit
    → n < 10 ^ fuel
    → parse_digits 10 limit 0 (decimal fuel n) ≡ some n
unfolding decimal parse_digits
parse_digits-decimal limit zero n h small = ap some (omega arith)
parse_digits-decimal limit (suc fuel) n h small = elim (Bool-cases (ltb n 10)) [
  | inl one ↦
      rw one (rw (add_decimal limit 0 n (ground arith) (omega arith)) (ap some (omega arith)))
  | inr more ↦ rw more (
      rw (parse_digits-append 10 limit 0 (decimal fuel (n / 10)) (b'0' + n % 10)) (
        rw (parse_digits-decimal limit fuel (n / 10) (omega arith) (tenth-lt fuel n small)) (
          add_decimal limit (n / 10) (n % 10) (omega arith) (omega arith) ∙ ap some (omega arith))))
]

-- A text of digits has no sign.
parse_uint-digits :
    (radix limit : ℕ) (s : List ℕ)
    → is_empty s ≡ false
    → Within b'0' b'9' s
    → parse_uint radix limit s ≡ parse_digits radix limit 0 s
unfolding parse_uint
parse_uint-digits radix limit [] full w = cc
parse_uint-digits radix limit (c ∷ []) full w = refl
parse_uint-digits radix limit (c ∷ d ∷ s) full (lo, hi, w) =
    let plain : (c == b'+') ≡ false = ground arith in rw plain

is_empty-append : (s : List ℕ) (c : ℕ) → is_empty (s ++ c ∷ []) ≡ false
is_empty-append [] c = refl
is_empty-append (d ∷ s) c = refl

pub is_empty-decimal : (fuel n : ℕ) → is_empty (decimal (suc fuel) n) ≡ false
unfolding decimal
is_empty-decimal fuel n = elim (Bool-cases (ltb n 10)) [
  | inl one ↦ rw one
  | inr more ↦ rw more (is_empty-append (decimal fuel (n / 10)) (b'0' + n % 10))
]

-- What is shown of a number is read back as the number.
pub parse_u16-show : (n : ℕ) → n < 65536 → parse_u16 (show_u16 n) ≡ some n
unfolding show_u16
parse_u16-show n h =
    parse_uint-digits 10 65535 (decimal 5 n) (is_empty-decimal 4 n) (decimal-Within 5 n)
    ∙ parse_digits-decimal 65535 5 n (omega arith) (omega arith)

hex_digit-plain : (d : ℕ) → d < 16 → (hex_digit d == b'+') ≡ false
unfolding hex_digit
hex_digit-plain d h = ground arith

digit_value-hex_digit : (d : ℕ) → d < 16 → digit_value (hex_digit d) ≡ some d
unfolding hex_digit
digit_value-hex_digit d h = ground arith

pub parse_hex-byte : (b : ℕ) → b < 256 → parse_uint 16 255 (hex_byte b) ≡ some b
unfolding parse_uint parse_digits hex_byte
parse_hex-byte b h =
    let plain : (hex_digit (b / 16) == b'+') ≡ false = hex_digit-plain (b / 16) (omega arith) in
    rw plain (
      rw
        (digit_value-hex_digit (b / 16) (omega arith), digit_value-hex_digit (b % 16) (omega arith))
        (ground arith))
