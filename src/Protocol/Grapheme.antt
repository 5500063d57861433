-- ===== src/Protocol/Grapheme.antt =====
-- `CompactGrapheme` of src/protocol/grid.rs: at most 15 bytes of a text, cut between characters.
-- A `&str` is the list of its UTF-8 bytes.
use rumsh.Prelude.{
  ℕ, zero, suc, ◌-◌, Bool, true, false, not, ◌&&◌, List, [], ◌∷◌, ◌++◌, length, take, replicate,
  ltb, leb, if◌then◌else◌,
}

pub record CompactGrapheme : Type 0 where
  pub bytes : List ℕ
  pub len : ℕ

-- A continuation byte of UTF-8 is 0b10xxxxxx.
abbrev pub is_continuation : ℕ → Bool
is_continuation b = leb 128 b && ltb b 192

-- `str::is_char_boundary`.
unfoldable pub is_char_boundary : List ℕ → ℕ → Bool
is_char_boundary s zero = true
is_char_boundary [] (suc i) = false
is_char_boundary (b ∷ []) (suc zero) = true
is_char_boundary (b ∷ c ∷ s) (suc zero) = not (is_continuation c)
is_char_boundary (b ∷ s) (suc (suc i)) = is_char_boundary s (suc i)

-- `while !s.is_char_boundary(len) { len -= 1 }`.
unfoldable pub floor_boundary : List ℕ → ℕ → ℕ
floor_boundary s zero = zero
floor_boundary s (suc n) = elim (is_char_boundary s (suc n)) [
  | true ↦ suc n
  | false ↦ floor_boundary s n
]

abbrev pub grapheme_len : List ℕ → ℕ
grapheme_len s = if ltb 15 (length s) then floor_boundary s 15 else length s

unfoldable pub new : List ℕ → CompactGrapheme
unfolding floor_boundary is_char_boundary
new s = record {
  bytes = take (grapheme_len s) s ++ replicate (15 - grapheme_len s) 0;
  len = grapheme_len s;
}

unfoldable pub as_str : CompactGrapheme → List ℕ
as_str g = take g.len g.bytes
