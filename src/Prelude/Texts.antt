-- ===== src/Prelude/Texts.antt =====
-- What the program uses of Rust's strings. A `&str` is the list of its characters, as code points;
-- `bytes_of` is its UTF-8, by which it is measured and cut.
mod Numerals
unfoldable pub use Numerals.*
use Numerals.{Within}
use Prim.Native.Char.{code}
use Prim.Native.String.{String}
use Prim.Native.Nat.{ℕ, zero, suc, ◌+◌, ◌-◌, ◌*◌, ◌/◌, ◌%◌, ◌≤◌, ◌<◌}
use mathlib.Core.Path.{◌≡◌, refl, ap}
use mathlib.Core.Bool.{Bool, true, false, ◌&&◌, ◌||◌}
use mathlib.Core.List.{List, [], ◌∷◌, ◌++◌}
use mathlib.Core.Option.{Option, none, some}
use native.Mathlib.Omega.{arith}
use rumsh.Prelude.Lists.{is_empty}
use rumsh.Prelude.Tests.{ltb, leb, ◌==◌, if◌then◌else◌}

abbrev pub Text : Type 0
Text = List ℕ

-- The characters of a literal.
abbrev pub text : String → Text
text String.[] = []
text (String.◌∷◌ c s) = code c ∷ text s

-- `char::encode_utf8`.
abbrev pub encode_utf8 : ℕ → List ℕ
encode_utf8 c =
    if ltb c 0x80
    then c ∷ []
    else if ltb c 0x800
    then (0xc0 + c / 64) ∷ (0x80 + c % 64) ∷ []
    else if ltb c 0x10000
    then (0xe0 + c / 4096) ∷ (0x80 + c / 64 % 64) ∷ (0x80 + c % 64) ∷ []
    else (0xf0 + c / 262144) ∷ (0x80 + c / 4096 % 64) ∷ (0x80 + c / 64 % 64) ∷ (0x80 + c % 64) ∷ []

abbrev pub bytes_of : Text → List ℕ
bytes_of [] = []
bytes_of (c ∷ s) = encode_utf8 c ++ bytes_of s

-- `char::is_whitespace`.
abbrev pub is_whitespace : ℕ → Bool
is_whitespace c =
    (leb 9 c && leb c 13)
    || c == 32
    || c == 0x85
    || c == 0xa0
    || c == 0x1680
    || (leb 0x2000 c && leb c 0x200a)
    || c == 0x2028
    || c == 0x2029
    || c == 0x202f
    || c == 0x205f
    || c == 0x3000

abbrev pub starts_with : Text → Text → Bool
starts_with s [] = true
starts_with [] (p ∷ ps) = false
starts_with (c ∷ s) (p ∷ ps) = c == p && starts_with s ps

abbrev pub contains : ℕ → Text → Bool
contains d [] = false
contains d (c ∷ s) = c == d || contains d s

-- The parts before, between and after the separators. The first part is given so far.
abbrev pub cons_part : ℕ → List Text → List Text
cons_part c [] = (c ∷ []) ∷ []
cons_part c (part ∷ parts) = (c ∷ part) ∷ parts

abbrev pub split_by : (ℕ → Bool) → Text → List Text
split_by p [] = [] ∷ []
split_by p (c ∷ s) = if p c then [] ∷ split_by p s else cons_part c (split_by p s)

-- `s.split(d)`.
abbrev pub split : ℕ → Text → List Text
split d s = split_by (λ c. c == d) s

abbrev pub nonempty : List Text → List Text
nonempty [] = []
nonempty ([] ∷ parts) = nonempty parts
nonempty ((c ∷ s) ∷ parts) = (c ∷ s) ∷ nonempty parts

abbrev pub split_whitespace : Text → List Text
split_whitespace s = nonempty (split_by is_whitespace s)

-- No character passes the test.
abbrev pub Free : (ℕ → Bool) → Text → Type 0
Free p [] = Unit
Free p (c ∷ s) = (p c ≡ false) × Free p s

pub split_by-append :
    (p : ℕ → Bool) (s : Text) (d : ℕ) (t : Text)
    → Free p s
    → p d ≡ true
    → split_by p (s ++ d ∷ t) ≡ s ∷ split_by p t
split_by-append p [] d t f hit = rw hit
split_by-append p (c ∷ s) d t (miss, f) hit =
    rw miss (ap (cons_part c) (split_by-append p s d t f hit))

pub split_by_one : (p : ℕ → Bool) (s : Text) → Free p s → split_by p s ≡ s ∷ []
split_by_one p [] f = refl
split_by_one p (c ∷ s) (miss, f) = rw miss (ap (cons_part c) (split_by_one p s f))

pub Free-append : (p : ℕ → Bool) (s t : Text) → Free p s → Free p t → Free p (s ++ t)
Free-append p [] t fs ft = ft
Free-append p (c ∷ s) t (miss, fs) ft = (miss, Free-append p s t fs ft)

-- A word, a space and the rest.
pub split_whitespace-word :
    (w t : Text)
    → is_empty w ≡ false
    → Free is_whitespace w
    → split_whitespace (w ++ b' ' ∷ t) ≡ w ∷ split_whitespace t
split_whitespace-word [] t full f = cc
split_whitespace-word (c ∷ w) t full f =
    ap nonempty (split_by-append is_whitespace (c ∷ w) b' ' t f refl)

pub split_whitespace_one :
    (w : Text) → is_empty w ≡ false → Free is_whitespace w → split_whitespace w ≡ w ∷ []
split_whitespace_one [] full f = cc
split_whitespace_one (c ∷ w) full f = ap nonempty (split_by_one is_whitespace (c ∷ w) f)

-- Characters in a range that has none of these.
pub Within-Free :
    (p : ℕ → Bool) (lo hi : ℕ) (s : Text)
    → ((c : ℕ) → lo ≤ c → c ≤ hi → p c ≡ false)
    → Within lo hi s
    → Free p s
Within-Free p lo hi [] none_in w = tt
Within-Free p lo hi (c ∷ s) none_in (a, b, w) = (none_in c a b, Within-Free p lo hi s none_in w)

-- An ASCII text is its own UTF-8.
pub bytes_of-ascii : (s : Text) → Within 0 127 s → bytes_of s ≡ s
bytes_of-ascii [] w = refl
bytes_of-ascii (c ∷ s) (a, b, w) =
    let plain : ltb c 0x80 ≡ true = ground arith in rw plain (ap (◌∷◌ c) (bytes_of-ascii s w))
