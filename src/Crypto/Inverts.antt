-- ===== src/Crypto/Inverts.antt =====
-- A manager decrypts what it has encrypted under the same number.
use rumsh.Prelude.{ℕ, ◌≡◌, List, ok}
use rumsh.Protocol.External.{AeadInverts}
use rumsh.Crypto.{CryptoManager, make_nonce, encrypt, decrypt}

pub decrypt-encrypt :
    (self : CryptoManager) (seq : ℕ) (plain cipher : List ℕ)
    → AeadInverts self.cipher
    → encrypt self seq plain ≡ ok cipher
    → decrypt self seq cipher ≡ ok plain
unfolding encrypt decrypt
decrypt-encrypt self seq plain cipher inverts e = inverts (make_nonce self seq) plain cipher e
