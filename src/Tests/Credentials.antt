-- ===== src/Tests/Credentials.antt =====
-- The envelopes of the ciphers, for a toy that binds its text to the associated data.
use coder_manager.Base.{
  ◌≡◌, refl, ap, sym, ◌∙◌, false, ◌&&◌, Option, none, some, nat_eq, list_eq, ◌==◌, [], ◌∷◌, ◌++◌,
  length, take, drop, take-++, drop-++, arith, if◌then◌else◌, beq_refl, eq_of_beq, inl, inr,
  Bool-cases,
}
use coder_manager.Repositories.Reply.{accepted}
use coder_manager.Crypto.{Bytes, Aead, Primitives}
use coder_manager.Crypto.Password as Password
use coder_manager.Crypto.Kubeconfig as Kubeconfig
use coder_manager.Crypto.InstancePassword as InstancePassword
use coder_manager.Crypto.ParameterValue as ParameterValue
use coder_manager.Crypto.Envelopes.{
  IsOpening, IsBinding, decrypt-encrypt, envelope-bound, made, is_readable, database_password,
  parameter_value,
}

-- The length of the associated data, the data and the text.
abbrev toy_decrypt : Bytes → Bytes → Bytes → Option Bytes
toy_decrypt nonce [] a = none
toy_decrypt nonce (size ∷ rest) a =
    if size == length a && take (length a) rest == a then some (drop (length a) rest) else none

abbrev toy : Aead
toy = record { encrypt = λ nonce text a. length a ∷ (a ++ text); decrypt = toy_decrypt }

abbrev primitives : Primitives
primitives = record {
  b64decode = λ text. none;
  aesgcm = λ key. toy;
  encode = λ text. 115 ∷ [];
  decode = λ bytes. some "s";
  uuid_bytes = λ id. id ∷ [];
}

abbrev nonce : Bytes
nonce = 0 ∷ 1 ∷ 2 ∷ 3 ∷ 4 ∷ 5 ∷ 6 ∷ 7 ∷ 8 ∷ 9 ∷ 10 ∷ 11 ∷ []

same_prefix : (a b text : Bytes) → length a ≡ length b → take (length b) (a ++ text) ≡ a
same_prefix a b text e = ap (λ n. take n (a ++ text)) (sym e) ∙ take-++ a text

toy-IsOpening : IsOpening toy
toy-IsOpening = record {
  tagged = λ n p a. omega arith;
  opens = λ n p a. ground (arith, take-++ a p, drop-++ a p, beq_refl a);
}

toy-IsBinding : IsBinding primitives toy
toy-IsBinding = record {
  authentic = λ n p a b apart. elim (Bool-cases (length a == length b)) [
    | inl e ↦
        ground (arith, same_prefix a b p (eq_of_beq (length a) (length b) e), apart, eq_of_beq a b)
    | inr e ↦ ground (arith, e)
  ];
  distinct = λ i j e. ground (arith, e);
}

decrypt-encrypt_example :
    (Password.decrypt primitives toy (Password.encrypt primitives toy nonce "s" 20) 20
      ≡ accepted "s")
    × (Kubeconfig.decrypt primitives toy (Kubeconfig.encrypt primitives toy nonce (7 ∷ []) 20) 20
        ≡ accepted (7 ∷ []))
    × (InstancePassword.decrypt primitives toy
          (InstancePassword.encrypt primitives toy nonce "s" 20)
          20
        ≡ accepted "s")
    × (ParameterValue.decrypt primitives toy (ParameterValue.encrypt primitives toy nonce "s" 20) 20
        ≡ accepted "s")
decrypt-encrypt_example =
    decrypt-encrypt primitives toy toy-IsOpening nonce refl "s" (7 ∷ []) 20 refl

envelope-bound_example :
    is_readable primitives toy parameter_value
      (made primitives toy database_password nonce "s" 20)
      20
    ≡ false
envelope-bound_example =
    envelope-bound primitives toy nonce "s" database_password parameter_value 20 20 toy-IsBinding
      refl (λ same. ground (arith, same))
