-- ===== src/Crypto/InstancePassword.antt =====
-- InstancePasswordCipher (crypto.py).
use coder_manager.Base.{◌+◌, ℕ, String, [], ◌∷◌, ◌++◌, take, drop}
use coder_manager.Repositories.Reply.{Reply, ◌>>=◌, ◌>>◌, refuse_if, found_or}
use coder_manager.Crypto.{
  Bytes, Aead, Primitives, CryptoError, instance_password_decryption, envelope_version,
  nonce_length, is_malformed,
}

-- The bytes of "coder-manager:instance-password:".
abbrev pub prefix : Bytes
prefix =
    99 ∷ 111 ∷ 100 ∷ 101 ∷ 114 ∷ 45 ∷ 109 ∷ 97 ∷ 110 ∷ 97 ∷ 103 ∷ 101 ∷ 114 ∷ 58 ∷ 105 ∷ 110 ∷ 115
    ∷ 116 ∷ 97 ∷ 110 ∷ 99 ∷ 101 ∷ 45 ∷ 112 ∷ 97 ∷ 115 ∷ 115 ∷ 119 ∷ 111 ∷ 114 ∷ 100 ∷ 58 ∷ []

-- The nonce that `encrypt` takes is the one that `urandom` returns.
module _ (primitives : Primitives) (aead : Aead) where
  abbrev pub associated_data : ℕ → Bytes
  associated_data id = prefix ++ primitives.uuid_bytes id

  unfoldable pub encrypt : Bytes → String → ℕ → Bytes
  encrypt nonce plaintext id =
      (envelope_version ∷ [])
      ++ nonce
      ++ aead.encrypt nonce (primitives.encode plaintext) (associated_data id)

  unfoldable pub decrypt : Bytes → ℕ → Reply CryptoError String
  decrypt envelope id = do
    refuse_if (is_malformed envelope) instance_password_decryption
    let nonce = take nonce_length (drop 1 envelope)
    let ciphertext = drop (1 + nonce_length) envelope
    plaintext ←
        found_or (aead.decrypt nonce ciphertext (associated_data id)) instance_password_decryption
    found_or (primitives.decode plaintext) instance_password_decryption
