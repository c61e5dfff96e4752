-- ===== src/Session/Tests.antt =====
-- The theorems on encryption at concrete inputs.
use hush_go.Base.{Bytes, [], ◌∷◌, ◌++◌, take, ok, ◌>>=◌, ◌≡◌, refl, some, str_eq}
use hush_go.Session.Crypto.{encrypt, decrypt, decrypt-encrypt, decrypt_authentic, nonce_size}
use hush_go.Session.ToyAead.{toy_aead, toy_laws}
use hush_go.Base.{List, none}
use hush_go.Base.Int.{pos, negsuc}
use hush_go.Session.Store.{SessionConfig, fill_defaults, new_session, new_session_store, get}
use hush_go.Session.Store.Promise.{
  Call, call_set, call_delete, call_gc, perform_all, promise_all, perform_all-promise_all,
}

abbrev sixteen : Bytes
sixteen = 1 ∷ 2 ∷ 3 ∷ 4 ∷ 5 ∷ 6 ∷ 7 ∷ 8 ∷ 9 ∷ 10 ∷ 11 ∷ 12 ∷ 13 ∷ 14 ∷ 15 ∷ 16 ∷ []

decrypt-encrypt_example :
    (do
      sealed ← encrypt toy_aead (some (take 12 sixteen)) sixteen (7 ∷ 9 ∷ [])
      decrypt toy_aead sixteen sealed)
    ≡ ok (7 ∷ 9 ∷ [])
decrypt-encrypt_example =
    decrypt-encrypt toy_aead toy_laws sixteen (take 12 sixteen) (7 ∷ 9 ∷ []) refl refl

-- A nonce, the tag of the toy cipher and one byte.
abbrev sealed_seven : Bytes
sealed_seven =
    take 12 sixteen ++ (0 ∷ 0 ∷ 0 ∷ 0 ∷ 0 ∷ 0 ∷ 0 ∷ 0 ∷ 0 ∷ 0 ∷ 0 ∷ 0 ∷ 0 ∷ 0 ∷ 0 ∷ 0 ∷ 7 ∷ [])

decrypt-sealed_seven : decrypt toy_aead sixteen sealed_seven ≡ ok (7 ∷ [])
unfolding decrypt str_eq
decrypt-sealed_seven = refl

decrypt_authentic_example :
    sealed_seven
    ≡ take nonce_size sealed_seven ++ toy_aead.seal sixteen (take nonce_size sealed_seven) (7 ∷ [])
decrypt_authentic_example =
    decrypt_authentic toy_aead toy_laws sixteen sealed_seven (7 ∷ []) decrypt-sealed_seven

-- A lifetime of 100, and defaults elsewhere.
abbrev short_lived : SessionConfig
short_lived = record { idle_timeout = pos 0; max_lifetime = pos 100; gc_interval = negsuc 4 }

abbrev calls : List Call
calls =
    call_set (new_session (pos 10) 1 [] none)
    ∷ call_set (new_session (pos 20) 2 [] none)
    ∷ call_set (new_session (pos 60) 1 [] none)
    ∷ call_gc (pos 130)
    ∷ call_delete 7
    ∷ []

perform_all-promise_all_example :
    get (perform_all (new_session_store short_lived) calls) 2
    ≡ promise_all (fill_defaults short_lived).max_lifetime (λ _. none) calls 2
perform_all-promise_all_example = perform_all-promise_all short_lived calls 2
