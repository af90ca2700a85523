-- ===== src/Crypto.antt =====
-- The encryption of stored credentials (crypto.py): what its four ciphers share. Their module
-- comments name the class of each.
use coder_manager.Base.{
  false, ◌+◌, ℕ, Bool, not, String, Option, none, some, ◌==◌, nat_eq, List, [], ◌∷◌, ◌++◌, length,
  take, drop, leb, ◌||◌,
}
use coder_manager.Repositories.Reply.{Reply, accepted, refused, ◌>>=◌, ◌>>◌, refuse_if, found_or}
pub mod Password
pub mod Kubeconfig
pub mod InstancePassword
pub mod ParameterValue
pub mod Envelopes

pub data CryptoError : Type 0 where
  configuration password_decryption kubeconfig_decryption : CryptoError
  instance_password_decryption template_parameter_decryption : CryptoError

-- Bytes are numbers.
abbrev pub Bytes : Type 0
Bytes = List ℕ

-- An AESGCM object: its arguments are the nonce, the text and the associated data. There is no
-- plaintext where it raises InvalidTag or ValueError.
pub record Aead : Type 0 where
  pub encrypt : Bytes → Bytes → Bytes → Bytes
  pub decrypt : Bytes → Bytes → Bytes → Option Bytes

-- The other functions of Python and of the packages that the ciphers call: `b64decode`, AESGCM's
-- constructor, UTF-8 both ways, and `UUID.bytes`.
pub record Primitives : Type 0 where
  pub b64decode : String → Option Bytes
  pub aesgcm : Bytes → Aead
  pub encode : String → Bytes
  pub decode : Bytes → Option String
  pub uuid_bytes : ℕ → Bytes

abbrev pub envelope_version : ℕ
envelope_version = 1

abbrev pub nonce_length : ℕ
nonce_length = 12

abbrev pub key_length : ℕ
key_length = 32

-- `__init__`, the same in the four classes.
unfoldable pub new_cipher : Primitives → Option String → Reply CryptoError Aead
new_cipher primitives encoded_key = do
  text ← found_or encoded_key configuration
  key ← found_or (primitives.b64decode text) configuration
  refuse_if (not (length key == key_length)) configuration
  accepted (primitives.aesgcm key)

abbrev pub has_version : Bytes → Bool
has_version [] = false
has_version (version ∷ rest) = version == envelope_version

-- The test of an envelope's length and version: whether it is refused.
abbrev pub is_malformed : Bytes → Bool
is_malformed envelope = leb (length envelope) (1 + nonce_length) || not (has_version envelope)
