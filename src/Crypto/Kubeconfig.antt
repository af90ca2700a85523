-- ===== src/Crypto/Kubeconfig.antt =====
-- KubeconfigCipher (crypto.py).
use coder_manager.Base.{◌+◌, ℕ, [], ◌∷◌, ◌++◌, take, drop}
use coder_manager.Repositories.Reply.{Reply, ◌>>◌, refuse_if, found_or}
use coder_manager.Crypto.{
  Bytes, Aead, Primitives, CryptoError, kubeconfig_decryption, envelope_version, nonce_length,
  is_malformed,
}

-- The bytes of "coder-manager:kubeconfig:".
abbrev pub prefix : Bytes
prefix =
    99 ∷ 111 ∷ 100 ∷ 101 ∷ 114 ∷ 45 ∷ 109 ∷ 97 ∷ 110 ∷ 97 ∷ 103 ∷ 101 ∷ 114 ∷ 58 ∷ 107 ∷ 117 ∷ 98
    ∷ 101 ∷ 99 ∷ 111 ∷ 110 ∷ 102 ∷ 105 ∷ 103 ∷ 58 ∷ []

-- The nonce that `encrypt` takes is the one that `urandom` returns.
module _ (primitives : Primitives) (aead : Aead) where
  abbrev pub associated_data : ℕ → Bytes
  associated_data id = prefix ++ primitives.uuid_bytes id

  unfoldable pub encrypt : Bytes → Bytes → ℕ → Bytes
  encrypt nonce plaintext id =
      (envelope_version ∷ []) ++ nonce ++ aead.encrypt nonce plaintext (associated_data id)

  unfoldable pub decrypt : Bytes → ℕ → Reply CryptoError Bytes
  decrypt envelope id = do
    refuse_if (is_malformed envelope) kubeconfig_decryption
    let nonce = take nonce_length (drop 1 envelope)
    let ciphertext = drop (1 + nonce_length) envelope
    found_or (aead.decrypt nonce ciphertext (associated_data id)) kubeconfig_decryption
