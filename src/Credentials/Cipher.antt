-- ===== src/Credentials/Cipher.antt =====
-- Encryption and decryption of the credentials, against the laws of the cipher and of base64.
use rtxag.Prelude.{
  ℕ, suc, String, ◌≡◌, refl, ap, ◌∙◌, true, false, none, some, [], ◌∷◌, append, arith,
}
use rtxag.Prelude.Text.{has_char, break_at, break_at-append, has_char-append, append-nil}
use rtxag.Error.{ok}
use rtxag.Credentials.{
  CipherSuite, Values, aes_encrypt, aes_decrypt, encrypt, decrypt, decrypt_value,
}

-- Decryption undoes encryption, decoding undoes encoding, and base64 has no comma.
pub record IsSound (suite : CipherSuite) : Type 0 where
  pub cbc : (iv : suite.Bytes) (s : String) → suite.cbc_decrypt iv (suite.cbc_encrypt iv s) ≡ ok s
  pub b64 : (b : suite.Bytes) → suite.b64decode (suite.b64encode b) ≡ ok b
  pub no_comma : (b : suite.Bytes) → has_char b',' (suite.b64encode b) ≡ false

-- The values that are there.
abbrev pub AllPresent : Values → Type 0
AllPresent [] = Unit
AllPresent ((k, none) ∷ rest) = ⊥
AllPresent ((k, some v) ∷ rest) = AllPresent rest

module _ (suite : CipherSuite) (sound : IsSound suite) where
  encrypted_text :
      (iv : suite.Bytes) (s : String)
      → break_at b',' (aes_encrypt suite iv s)
        ≡ some (suite.b64encode iv, suite.b64encode (suite.cbc_encrypt iv s))
  unfolding aes_encrypt
  encrypted_text iv s =
      break_at-append b',' (suite.b64encode iv) ","
        (append (suite.b64encode (suite.cbc_encrypt iv s)) "") (sound.no_comma iv) refl
      ∙ ap (λ t. some (suite.b64encode iv, t))
          (append-nil (suite.b64encode (suite.cbc_encrypt iv s)))

  has_comma : (iv : suite.Bytes) (s : String) → has_char b',' (aes_encrypt suite iv s) ≡ true
  unfolding aes_encrypt has_char
  has_comma iv s = rw (has_char-append b',' (suite.b64encode iv)) (ground arith)

  -- A text that was encrypted decrypts to itself, whatever the initialisation vector.
  pub aes_decrypt-aes_encrypt :
      (iv : suite.Bytes) (s : String) → aes_decrypt suite (aes_encrypt suite iv s) ≡ ok s
  unfolding aes_decrypt
  aes_decrypt-aes_encrypt iv s =
      rw (encrypted_text iv s)
        (rw (sound.b64 iv) (rw (sound.b64 (suite.cbc_encrypt iv s)) (sound.cbc iv s)))

  decrypt_value-aes_encrypt :
      (key : String) (iv : suite.Bytes) (s : String)
      → decrypt_value suite key (some (aes_encrypt suite iv s)) ≡ ok s
  unfolding decrypt_value
  decrypt_value-aes_encrypt key iv s = rw (has_comma iv s) (rw (aes_decrypt-aes_encrypt iv s))

  -- What `encrypt` has encrypted `decrypt` restores, key by key, where every value is there.
  pub decrypt-encrypt :
      (ivs : ℕ → suite.Bytes) (values : Values)
      → AllPresent values
      → decrypt suite (encrypt suite ivs values) ≡ ok values
  unfolding decrypt encrypt
  decrypt-encrypt ivs [] h = refl
  decrypt-encrypt ivs ((k, none) ∷ rest) h = absurd h
  decrypt-encrypt ivs ((k, some v) ∷ rest) h =
      unfold decrypt in
      rw (decrypt_value-aes_encrypt k (ivs 0) v) (rw (decrypt-encrypt (λ n. ivs (suc n)) rest h))
