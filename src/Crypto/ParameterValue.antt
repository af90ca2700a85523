-- ===== src/Crypto/ParameterValue.antt =====
-- TemplateParameterCipher (crypto.py).
use coder_manager.Base.{◌+◌, ℕ, String, [], ◌∷◌, ◌++◌, take, drop}
use coder_manager.Repositories.Reply.{Reply, ◌>>=◌, ◌>>◌, refuse_if, found_or}
use coder_manager.Crypto.{
  Bytes, Aead, Primitives, CryptoError, template_parameter_decryption, envelope_version,
  nonce_length, is_malformed,
}

-- The bytes of "coder-manager:template-parameter:".
abbrev pub prefix : Bytes
prefix =
    99 ∷ 111 ∷ 100 ∷ 101 ∷ 114 ∷ 45 ∷ 109 ∷ 97 ∷ 110 ∷ 97 ∷ 103 ∷ 101 ∷ 114 ∷ 58 ∷ 116 ∷ 101 ∷ 109
    ∷ 112 ∷ 108 ∷ 97 ∷ 116 ∷ 101 ∷ 45 ∷ 112 ∷ 97 ∷ 114 ∷ 97 ∷ 109 ∷ 101 ∷ 116 ∷ 101 ∷ 114 ∷ 58 ∷ []

-- The nonce that `encrypt` takes is the one that `urandom` returns.
module _ (primitives : Primitives) (aead : Aead) where
  abbrev pub associated_data : ℕ → Bytes
  associated_data id = prefix ++ primitives.uuid_bytes id

  unfoldable pub encrypt : Bytes → String → ℕ → Bytes
  encrypt nonce plaintext id =
      (envelope_version ∷ [])
      ++ nonce
      ++ aead.encrypt nonce (primitives.encode plaintext) (associated_data id)

  unfoldable pub decrypt : Bytes → ℕ → Reply CryptoError String
  decrypt envelope id = do
    refuse_if (is_malformed envelope) template_parameter_decryption
    let nonce = take nonce_length (drop 1 envelope)
    let ciphertext = drop (1 + nonce_length) envelope
    plaintext ←
        found_or (aead.decrypt nonce ciphertext (associated_data id)) template_parameter_decryption
    found_or (primitives.decode plaintext) template_parameter_decryption
