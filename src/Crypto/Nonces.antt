-- ===== src/Crypto/Nonces.antt =====
-- The nonces of one key.
use rumsh.Prelude.{
  ℕ, zero, suc, ◌+◌, ◌*◌, ◌/◌, ◌%◌, ◌^◌, ◌<◌, ◌≡◌, ◌≢◌, refl, sym, ◌∙◌, ap, List, [], ◌∷◌, ◌++◌,
  length, drop, arith,
}
use rumsh.Crypto.{CryptoManager, be_bytes, make_nonce}

-- The number that big-endian bytes stand for, after `acc`.
from_be : List ℕ → ℕ → ℕ
from_be [] acc = acc
from_be (b ∷ bs) acc = from_be bs (acc * 256 + b)

from_be-append : (xs ys : List ℕ) (acc : ℕ) → from_be (xs ++ ys) acc ≡ from_be ys (from_be xs acc)
unfolding from_be
from_be-append [] ys acc = refl
from_be-append (x ∷ xs) ys acc = from_be-append xs ys (acc * 256 + x)

from_be-be_bytes : (k n : ℕ) → n < 256 ^ k → from_be (be_bytes k n) 0 ≡ n
unfolding from_be be_bytes
from_be-be_bytes zero n lt = omega arith
from_be-be_bytes (suc k) n lt =
    let high : n / 256 < 256 ^ k = omega arith in
    from_be-append (be_bytes k (n / 256)) (n % 256 ∷ []) 0
    ∙ ap (λ m. m * 256 + n % 256) (from_be-be_bytes k (n / 256) high)
    ∙ omega arith

drop_prefix : (xs ys : List ℕ) → drop (length xs) (xs ++ ys) ≡ ys
drop_prefix [] ys = refl
drop_prefix (x ∷ xs) ys = drop_prefix xs ys

-- One manager makes different nonces for any two different sequence numbers of 64 bits.
pub make_nonce-distinct :
    (self : CryptoManager) (m n : ℕ)
    → m < 2 ^ 64
    → n < 2 ^ 64
    → m ≢ n
    → make_nonce self m ≢ make_nonce self n
unfolding make_nonce
make_nonce-distinct self m n hm hn ne e =
    let tails : be_bytes 8 m ≡ be_bytes 8 n =
      sym (drop_prefix self.salt (be_bytes 8 m))
      ∙ ap (drop (length self.salt)) e
      ∙ drop_prefix self.salt (be_bytes 8 n) in
    ne (
      sym (from_be-be_bytes 8 m (omega arith))
      ∙ ap (λ bs. from_be bs 0) tails
      ∙ from_be-be_bytes 8 n (omega arith))
