-- ===== src/Session/ToyAead.antt =====
-- An instance of Aead that meets AeadLaws: a tag of zeros in front of the plaintext. It shows that the
-- laws can be met, and serves the tests.
use hush_go.Base.{
  Bytes, [], ◌∷◌, ◌++◌, take, drop, take-append-drop, ◌≡◌, subst, if◌then◌else◌, arith, Option,
  none, some, str_eq, str_eq_iff, str_eq_refl, Bool-cases, inl, inr,
}
use hush_go.Base.{All, All-drop}
use hush_go.Base.BigEndian.{IsByte}
use hush_go.Session.Crypto.{Aead, AeadLaws, KeepsBytes}

abbrev zeros : Bytes
zeros = 0 ∷ 0 ∷ 0 ∷ 0 ∷ 0 ∷ 0 ∷ 0 ∷ 0 ∷ 0 ∷ 0 ∷ 0 ∷ 0 ∷ 0 ∷ 0 ∷ 0 ∷ 0 ∷ []

abbrev strip : Bytes → Option Bytes
strip sealed = if str_eq (take 16 sealed) zeros then some (drop 16 sealed) else none

abbrev pub toy_aead : Aead
toy_aead = record {
  seal = λ key nonce plaintext. zeros ++ plaintext;
  unseal = λ key nonce sealed. strip sealed;
}

strip-zeros : (plaintext : Bytes) → strip (zeros ++ plaintext) ≡ some plaintext
strip-zeros plaintext = rw (str_eq_refl zeros)

strip_authentic :
    (sealed plaintext : Bytes) → strip sealed ≡ some plaintext → zeros ++ plaintext ≡ sealed
strip_authentic sealed plaintext e = elim (Bool-cases (str_eq (take 16 sealed) zeros)) [
  | inl same ↦
      let rest : drop 16 sealed ≡ plaintext = cc (rw same at e) in
      subst (λ z. z ++ plaintext ≡ sealed) ((str_eq_iff (take 16 sealed) zeros).0 same)
        (subst (λ p. take 16 sealed ++ p ≡ sealed) rest (take-append-drop 16 sealed))
  | inr differs ↦ cc (rw differs at e)
]

pub toy_laws : AeadLaws toy_aead
toy_laws = record {
  unseal-seal = λ key nonce plaintext. strip-zeros plaintext;
  unseal-authentic = λ key nonce sealed plaintext e. strip_authentic sealed plaintext e;
  length-seal = λ key nonce plaintext. omega arith;
}

strip_bytes :
    (sealed plaintext : Bytes)
    → All IsByte sealed
    → strip sealed ≡ some plaintext
    → All IsByte plaintext
strip_bytes sealed plaintext h e = elim (Bool-cases (str_eq (take 16 sealed) zeros)) [
  | inl same ↦
      let rest : drop 16 sealed ≡ plaintext = cc (rw same at e) in
      subst (All IsByte) rest (All-drop IsByte 16 sealed h)
  | inr differs ↦ cc (rw differs at e)
]

pub toy_keeps : KeepsBytes toy_aead
toy_keeps = record {
  unseal_bytes = λ key nonce sealed plaintext h e. strip_bytes sealed plaintext h e;
}
