-- ===== src/Crypto.antt =====
-- src/crypto.rs: the nonce is a salt from the session id and the sequence number.
pub mod Nonces
pub mod Inverts
use rumsh.Prelude.{ℕ, zero, suc, ◌/◌, ◌%◌, List, [], ◌∷◌, ◌++◌, Result, take}
use rumsh.Protocol.External.{Aead}

-- `to_be_bytes` of an integer of `k` bytes.
pub be_bytes : ℕ → ℕ → List ℕ
be_bytes zero n = []
be_bytes (suc k) n = be_bytes k (n / 256) ++ (n % 256) ∷ []

pub record CryptoManager : Type 0 where
  pub cipher : Aead
  pub salt : List ℕ

-- The four bytes of the salt are the high half of the session id.
unfoldable pub new : Aead → ℕ → CryptoManager
unfolding be_bytes
new cipher session_id = record { cipher = cipher; salt = take 4 (be_bytes 8 session_id) }

unfoldable pub make_nonce : CryptoManager → ℕ → List ℕ
unfolding be_bytes
make_nonce self seq_num = self.salt ++ be_bytes 8 seq_num

unfoldable pub encrypt : CryptoManager → ℕ → List ℕ → Result (List ℕ)
unfolding make_nonce
encrypt self seq_num plaintext = self.cipher.encrypt (make_nonce self seq_num) plaintext

unfoldable pub decrypt : CryptoManager → ℕ → List ℕ → Result (List ℕ)
unfolding make_nonce
decrypt self seq_num ciphertext = self.cipher.decrypt (make_nonce self seq_num) ciphertext
