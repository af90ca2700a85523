-- ===== src/Crypto/Envelopes.antt =====
-- The envelopes of the four ciphers (crypto.py), read back under the identity they were made for,
-- and under another.
use coder_manager.Base.{
  Bool-cases, subst, ℕ, ◌+◌, ◌≤◌, ◌≡◌, ◌≢◌, refl, ap, ◌∙◌, Bool, true, false, String, Option, none,
  some, [], ◌∷◌, ◌++◌, length, take, drop, take-++, drop-++, length-++, arith, inl, inr,
}
use coder_manager.Repositories.Reply.{Reply, accepted, refused}
use coder_manager.Crypto.{
  Bytes, Aead, Primitives, CryptoError, envelope_version, nonce_length, is_malformed,
}
use coder_manager.Crypto.Password as Password
use coder_manager.Crypto.Kubeconfig as Kubeconfig
use coder_manager.Crypto.InstancePassword as InstancePassword
use coder_manager.Crypto.ParameterValue as ParameterValue

-- What the round trip relies on: AESGCM appends a tag, and gives the plaintext back under the same
-- nonce and associated data.
pub record IsOpening (aead : Aead) : Type 0 where
  pub tagged : (n p a : Bytes) → 1 ≤ length (aead.encrypt n p a)
  pub opens : (n p a : Bytes) → aead.decrypt n (aead.encrypt n p a) a ≡ some p

-- What the binding relies on: AESGCM raises InvalidTag under other associated data, and UUIDs with
-- the same bytes are the same.
pub record IsBinding (primitives : Primitives) (aead : Aead) : Type 0 where
  pub authentic : (n p a b : Bytes) → a ≢ b → aead.decrypt n (aead.encrypt n p a) b ≡ none
  pub distinct : (i j : ℕ) → primitives.uuid_bytes i ≡ primitives.uuid_bytes j → i ≡ j

sealed-well_formed :
    (nonce ciphertext : Bytes)
    → length nonce ≡ nonce_length
    → 1 ≤ length ciphertext
    → is_malformed ((envelope_version ∷ []) ++ nonce ++ ciphertext) ≡ false
sealed-well_formed nonce ciphertext size tag = ground (arith, length-++ nonce ciphertext)

sealed-nonce :
    (nonce ciphertext : Bytes)
    → length nonce ≡ nonce_length
    → take nonce_length (drop 1 ((envelope_version ∷ []) ++ nonce ++ ciphertext)) ≡ nonce
sealed-nonce nonce ciphertext size =
    subst (λ n. take n (nonce ++ ciphertext) ≡ nonce) size (take-++ nonce ciphertext)

sealed-ciphertext :
    (nonce ciphertext : Bytes)
    → length nonce ≡ nonce_length
    → drop (1 + nonce_length) ((envelope_version ∷ []) ++ nonce ++ ciphertext) ≡ ciphertext
sealed-ciphertext nonce ciphertext size =
    subst (λ n. drop n (nonce ++ ciphertext) ≡ ciphertext) size (drop-++ nonce ciphertext)

-- What the envelope of a plaintext under some associated data opens to.
module _ (aead : Aead) (nonce : Bytes) where
  abbrev envelope : Bytes → Bytes → Bytes
  envelope text a = (envelope_version ∷ []) ++ nonce ++ aead.encrypt nonce text a

  abbrev reopened : Bytes → Bytes → Bytes → Option Bytes
  reopened text a b =
      aead.decrypt (take nonce_length (drop 1 (envelope text a)))
        (drop (1 + nonce_length) (envelope text a)) b

module _ (aead : Aead) (nonce : Bytes) (size : length nonce ≡ nonce_length) where
  reopened-direct :
      (text a b : Bytes)
      → reopened aead nonce text a b ≡ aead.decrypt nonce (aead.encrypt nonce text a) b
  reopened-direct text a b =
      let ciphertext = aead.encrypt nonce text a in
      ap (λ n. aead.decrypt n (drop (1 + nonce_length) (envelope aead nonce text a)) b)
        (sealed-nonce nonce ciphertext size)
      ∙ ap (λ c. aead.decrypt nonce c b) (sealed-ciphertext nonce ciphertext size)

module _ (primitives : Primitives) (aead : Aead) (opening : IsOpening aead) (nonce : Bytes)
    (size : length nonce ≡ nonce_length) where
  reopened-same : (text a : Bytes) → reopened aead nonce text a a ≡ some text
  reopened-same text a = reopened-direct aead nonce size text a a ∙ opening.opens nonce text a

  envelope-well_formed : (text a : Bytes) → is_malformed (envelope aead nonce text a) ≡ false
  envelope-well_formed text a =
      sealed-well_formed nonce (aead.encrypt nonce text a) size (opening.tagged nonce text a)

  -- Each of the four ciphers decrypts the envelope that it encrypted for an identifier to the same
  -- text or file under that identifier, if the nonce has 12 bytes, UTF-8 decodes the text as it was
  -- encoded, and AESGCM gives a plaintext back under the same nonce and associated data and adds a
  -- tag.
  pub decrypt-encrypt :
      (text : String) (file : Bytes) (id : ℕ)
      → primitives.decode (primitives.encode text) ≡ some text
      → (Password.decrypt primitives aead (Password.encrypt primitives aead nonce text id) id
          ≡ accepted text)
        × (Kubeconfig.decrypt primitives aead (Kubeconfig.encrypt primitives aead nonce file id) id
            ≡ accepted file)
        × (InstancePassword.decrypt primitives aead
              (InstancePassword.encrypt primitives aead nonce text id)
              id
            ≡ accepted text)
        × (ParameterValue.decrypt primitives aead
              (ParameterValue.encrypt primitives aead nonce text id)
              id
            ≡ accepted text)
  unfolding Password.decrypt Password.encrypt Kubeconfig.decrypt Kubeconfig.encrypt
      InstancePassword.decrypt InstancePassword.encrypt ParameterValue.decrypt
      ParameterValue.encrypt
  decrypt-encrypt text file id decodes = (
    ground (
      arith,
      envelope-well_formed (primitives.encode text) (Password.associated_data primitives aead id),
      reopened-same (primitives.encode text) (Password.associated_data primitives aead id),
      decodes,
    ),
    ground (
      arith,
      envelope-well_formed file (Kubeconfig.associated_data primitives aead id),
      reopened-same file (Kubeconfig.associated_data primitives aead id),
    ),
    ground (
      arith,
      envelope-well_formed (primitives.encode text)
          (InstancePassword.associated_data primitives aead id),
      reopened-same (primitives.encode text) (InstancePassword.associated_data primitives aead id),
      decodes,
    ),
    ground (
      arith,
      envelope-well_formed (primitives.encode text)
          (ParameterValue.associated_data primitives aead id),
      reopened-same (primitives.encode text) (ParameterValue.associated_data primitives aead id),
      decodes,
    ),
  )

-- What a credential is for, and the cipher of each.
pub data Purpose : Type 0 where
  database_password instance_kubeconfig administrator_password parameter_value : Purpose

abbrev is_accepted {ℓ} : {A : Type ℓ} → Reply CryptoError A → Bool
is_accepted (accepted a) = true
is_accepted (refused e) = false

module _ (primitives : Primitives) (aead : Aead) where
  abbrev pub made : Purpose → Bytes → String → ℕ → Bytes
  made database_password nonce text id = Password.encrypt primitives aead nonce text id
  made instance_kubeconfig nonce text id =
      Kubeconfig.encrypt primitives aead nonce (primitives.encode text) id
  made administrator_password nonce text id = InstancePassword.encrypt primitives aead nonce text id
  made parameter_value nonce text id = ParameterValue.encrypt primitives aead nonce text id

  abbrev pub is_readable : Purpose → Bytes → ℕ → Bool
  is_readable database_password envelope id =
      is_accepted (Password.decrypt primitives aead envelope id)
  is_readable instance_kubeconfig envelope id =
      is_accepted (Kubeconfig.decrypt primitives aead envelope id)
  is_readable administrator_password envelope id =
      is_accepted (InstancePassword.decrypt primitives aead envelope id)
  is_readable parameter_value envelope id =
      is_accepted (ParameterValue.decrypt primitives aead envelope id)

  data_of : Purpose → ℕ → Bytes
  data_of database_password id = Password.associated_data primitives aead id
  data_of instance_kubeconfig id = Kubeconfig.associated_data primitives aead id
  data_of administrator_password id = InstancePassword.associated_data primitives aead id
  data_of parameter_value id = ParameterValue.associated_data primitives aead id

  -- The associated data tell both the purpose and the identifier.
  data_of-injective :
      ((i j : ℕ) → primitives.uuid_bytes i ≡ primitives.uuid_bytes j → i ≡ j)
      → (p q : Purpose) (i j : ℕ) → data_of p i ≡ data_of q j
      → (p ≡ q) × (i ≡ j)
  unfolding data_of
  data_of-injective distinct database_password database_password i j h =
      ground (arith, distinct i j)
  data_of-injective distinct instance_kubeconfig instance_kubeconfig i j h =
      ground (arith, distinct i j)
  data_of-injective distinct administrator_password administrator_password i j h =
      ground (arith, distinct i j)
  data_of-injective distinct parameter_value parameter_value i j h = ground (arith, distinct i j)
  data_of-injective distinct _ _ i j h = ground arith

  made-envelope :
      (p : Purpose) (nonce : Bytes) (text : String) (i : ℕ)
      → made p nonce text i ≡ envelope aead nonce (primitives.encode text) (data_of p i)
  unfolding data_of Password.encrypt Kubeconfig.encrypt InstancePassword.encrypt
      ParameterValue.encrypt
  made-envelope database_password nonce text i = refl
  made-envelope _ nonce text i = refl

  unreadable :
      (q : Purpose) (e : Bytes) (j : ℕ)
      → aead.decrypt (take nonce_length (drop 1 e)) (drop (1 + nonce_length) e) (data_of q j) ≡ none
      → is_readable q e j ≡ false
  unfolding data_of Password.decrypt Kubeconfig.decrypt InstancePassword.decrypt
      ParameterValue.decrypt
  unreadable database_password e j h = elim (Bool-cases (is_malformed e)) [
    | inl m ↦ ground (arith, m)
    | inr m ↦ ground (arith, m, h)
  ]
  unreadable instance_kubeconfig e j h = elim (Bool-cases (is_malformed e)) [
    | inl m ↦ ground (arith, m)
    | inr m ↦ ground (arith, m, h)
  ]
  unreadable administrator_password e j h = elim (Bool-cases (is_malformed e)) [
    | inl m ↦ ground (arith, m)
    | inr m ↦ ground (arith, m, h)
  ]
  unreadable parameter_value e j h = elim (Bool-cases (is_malformed e)) [
    | inl m ↦ ground (arith, m)
    | inr m ↦ ground (arith, m, h)
  ]

-- An envelope that one of the four ciphers made for an identifier is refused by each of them under
-- every other pair of cipher and identifier, if the nonce has 12 bytes, AESGCM refuses other
-- associated data and adds a tag, and distinct UUIDs have distinct bytes.
pub envelope-bound :
    (primitives : Primitives) (aead : Aead) (nonce : Bytes) (text : String) (p q : Purpose)
    (i j : ℕ)
    → IsBinding primitives aead
    → length nonce ≡ nonce_length
    → ((p ≡ q) × (i ≡ j) → ⊥)
    → is_readable primitives aead q (made primitives aead p nonce text i) j ≡ false
envelope-bound primitives aead nonce text p q i j binding size apart =
    let a = data_of primitives aead p i in
    let b = data_of primitives aead q j in
    let differ : a ≢ b =
      λ same. apart (data_of-injective primitives aead binding.distinct p q i j same) in
    unreadable primitives aead q (made primitives aead p nonce text i) j (
      rw (made-envelope primitives aead p nonce text i) (
        reopened-direct aead nonce size (primitives.encode text) a b
        ∙ binding.authentic nonce (primitives.encode text) a b differ))
