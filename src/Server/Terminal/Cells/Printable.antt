-- ===== src/Server/Terminal/Cells/Printable.antt =====
-- No cell of the server's grid carries a control byte, so none can smuggle an escape sequence into
-- the client's terminal.
use rumsh.Prelude.{
  ℕ, zero, suc, ◌-◌, ◌≤◌, ◌≡◌, ◌≢◌, inl, inr, refl, sym, ap, subst, List, [], ◌∷◌, ◌++◌, Result, ok,
  ok_of_bind, ◌>>=◌, length, take, replicate, leb, ◌==◌, Bool-cases, encode_utf8, arith,
}
use rumsh.Protocol.Grid.{LocalCellData}
use rumsh.Protocol.Grapheme
use rumsh.Protocol.Grapheme.{floor_boundary, is_char_boundary, grapheme_len, as_str}
use rumsh.Server.Emulator.{EmulatedCell}
use rumsh.Server.Terminal.Cells.{clean_char, encode_buf, encode_chars, read_text, read_cell}

-- Neither a C0 control (an escape, a line feed) nor DEL.
abbrev pub Printable : List ℕ → Type 0
Printable [] = Unit
Printable (b ∷ bs) = (32 ≤ b) × (b ≢ 127) × Printable bs

Printable-append : (xs ys : List ℕ) → Printable xs → Printable ys → Printable (xs ++ ys)
Printable-append [] ys px py = py
Printable-append (x ∷ xs) ys (lo, ne, px) py = (lo, ne, Printable-append xs ys px py)

Printable-take : (n : ℕ) (xs : List ℕ) → Printable xs → Printable (take n xs)
Printable-take zero xs p = tt
Printable-take (suc n) [] p = tt
Printable-take (suc n) (x ∷ xs) (lo, ne, p) = (lo, ne, Printable-take n xs p)

encode_utf8-Printable : (c : ℕ) → Printable (encode_utf8 (clean_char c))
encode_utf8-Printable c = ground arith

encode_buf-Printable : (cs : List ℕ) → Printable (encode_buf cs)
unfolding encode_buf
encode_buf-Printable [] = tt
encode_buf-Printable (c ∷ cs) = elim (Bool-cases (c == 0)) [
  | inl ends ↦ rw ends tt
  | inr goes_on ↦ rw goes_on (
      Printable-append (encode_utf8 (clean_char c)) (encode_buf cs) (encode_utf8-Printable c)
        (encode_buf-Printable cs))
]

encode_chars-Printable : (cs : List ℕ) → Printable (encode_chars cs)
unfolding encode_chars
encode_chars-Printable [] = tt
encode_chars-Printable (c ∷ cs) =
    Printable-append (encode_utf8 (clean_char c)) (encode_chars cs) (encode_utf8-Printable c)
      (encode_chars-Printable cs)

of_encoded :
    (encode : List ℕ → List ℕ) (r : Result (List ℕ)) (text : List ℕ)
    → ((cs : List ℕ) → Printable (encode cs))
    → (r >>= λ chars. ok (encode chars)) ≡ ok text
    → Printable text
of_encoded encode r text clean e =
    let (chars, _, made) = ok_of_bind r (λ cs. ok (encode cs)) text e in
    let same : encode chars ≡ text = cc made in subst Printable same (clean chars)

read_text-Printable :
    (cell : EmulatedCell) (len : ℕ) (text : List ℕ) → read_text cell len ≡ ok text → Printable text
unfolding read_text
read_text-Printable cell len text e = elim (Bool-cases (len == 0)) [
  | inl blank ↦
      let same : (b' ' ∷ []) ≡ text = cc (rw blank at e) in subst Printable same (omega arith)
  | inr some_text ↦ elim (Bool-cases (leb len 16)) [
    | inl short ↦
        of_encoded encode_buf cell.graphemes_buf text encode_buf-Printable
          (rw (some_text, short) at e)
    | inr long ↦
        of_encoded encode_chars cell.graphemes text encode_chars-Printable
          (rw (some_text, long) at e)
  ]
]

floor_boundary-le : (s : List ℕ) (n : ℕ) → floor_boundary s n ≤ n
unfolding floor_boundary
floor_boundary-le s zero = omega arith
floor_boundary-le s (suc n) = ground (arith, floor_boundary-le s n)

grapheme_len-le : (s : List ℕ) → grapheme_len s ≤ length s
grapheme_len-le s = ground (arith, floor_boundary-le s 15)

take-take_append : (n : ℕ) (xs ys : List ℕ) → n ≤ length xs → take n (take n xs ++ ys) ≡ take n xs
take-take_append zero xs ys h = refl
take-take_append (suc n) [] ys h = absurd (omega arith)
take-take_append (suc n) (x ∷ xs) ys h = ap (◌∷◌ x) (take-take_append n xs ys (omega arith))

as_str-Printable : (text : List ℕ) → Printable text → Printable (as_str (Grapheme.new text))
unfolding as_str Grapheme.new
as_str-Printable text p =
    subst Printable
      (sym (
        take-take_append (grapheme_len text) text (replicate (15 - grapheme_len text) 0)
          (grapheme_len-le text)))
      (Printable-take (grapheme_len text) text p)

-- The text of a cell that is read from the emulator, whatever the emulator holds, has no control
-- byte: no byte below 32 and no 127.
pub read_cell-Printable :
    (raw : EmulatedCell) (cell : LocalCellData)
    → read_cell raw ≡ ok cell
    → Printable (as_str cell.graphemes)
unfolding read_cell
read_cell-Printable raw cell e =
    let (len, _, e1) = ok_of_bind raw.graphemes_len _ cell e in
    let (text, read, e2) = ok_of_bind (read_text raw len) _ cell e1 in
    let (fg, _, e3) = ok_of_bind raw.fg_color _ cell e2 in
    let (bg, _, e4) = ok_of_bind raw.bg_color _ cell e3 in
    let (style, _, e5) = ok_of_bind raw.style _ cell e4 in
    let same : Grapheme.new text ≡ cell.graphemes = cc e5 in
    subst (λ g. Printable (as_str g)) same
      (as_str-Printable text (read_text-Printable raw len text read))
