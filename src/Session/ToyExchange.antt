-- ===== src/Session/ToyExchange.antt =====
-- An instance of Exchange that meets ExchangeLaws. It shows that the laws can be met, and serves the
-- tests.
use hush_go.Base.{
  ℕ, zero, suc, ◌+◌, Bytes, [], ◌∷◌, length, ◌≡◌, refl, ap, subst, ◌==◌, arith, some,
}
use hush_go.Session.Handshake.{Exchange, ExchangeLaws}

abbrev repeat : ℕ → ℕ → Bytes
repeat zero b = []
repeat (suc n) b = b ∷ repeat n b

length-repeat : (n b : ℕ) → length (repeat n b) ≡ n
length-repeat zero b = refl
length-repeat (suc n) b = ap suc (length-repeat n b)

abbrev first_of : Bytes → ℕ
first_of [] = 0
first_of (b ∷ rest) = b

add_comm : (a b : ℕ) → a + b ≡ b + a
add_comm a b = omega arith

-- A private key is a number, its public key 32 bytes that repeat it, and the secret of two keys their
-- sum.
abbrev pub toy_exchange : Exchange
toy_exchange = record {
  PrivateKey = ℕ;
  public_key = λ priv. repeat 32 priv;
  is_public_key = λ bytes. length bytes == 32;
  ecdh = λ priv public. some (repeat 32 (priv + first_of public));
  hkdf = λ secret salt info n. some (repeat n (first_of secret + first_of salt));
}

pub toy_exchange_laws : ExchangeLaws toy_exchange
toy_exchange_laws = record {
  length-public_key = λ priv. length-repeat 32 priv;
  is_public_key-public_key = λ priv. refl;
  ecdh_symmetric = λ a b. ap (λ s. some (repeat 32 s)) (add_comm a b);
  length-hkdf = λ secret salt info key n e.
      subst (λ k. length k ≡ n) (cc e) (length-repeat n (first_of secret + first_of salt));
}
