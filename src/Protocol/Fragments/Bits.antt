-- ===== src/Protocol/Fragments/Bits.antt =====
-- One bit of a word: `word | (1 << b)` and `(word & (1 << b)) != 0`, from the low bit up.
use rumsh.Prelude.{ℕ, zero, suc, ◌+◌, ◌*◌, ◌/◌, ◌%◌, ◌≡◌, Bool, ◌||◌, ◌==◌, arith}

unfoldable pub or_bit : ℕ → ℕ → ℕ
or_bit word zero = word / 2 * 2 + 1
or_bit word (suc b) = or_bit (word / 2) b * 2 + word % 2

unfoldable pub has_bit : ℕ → ℕ → Bool
has_bit word zero = word % 2 == 1
has_bit word (suc b) = has_bit (word / 2) b

-- Setting a bit sets that bit alone.
pub has_bit-or_bit : (word b c : ℕ) → has_bit (or_bit word b) c ≡ ((b == c) || has_bit word c)
unfolding or_bit has_bit
has_bit-or_bit word zero zero = ground arith
has_bit-or_bit word zero (suc c) =
    let half : (word / 2 * 2 + 1) / 2 ≡ word / 2 = omega arith in rw half (ground arith)
has_bit-or_bit word (suc b) zero = ground arith
has_bit-or_bit word (suc b) (suc c) =
    let half : (or_bit (word / 2) b * 2 + word % 2) / 2 ≡ or_bit (word / 2) b = omega arith in
    rw half (ground (arith, has_bit-or_bit (word / 2) b c))
