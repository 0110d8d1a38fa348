-- ===== src/ChatStore/Sealing.antt =====
-- A message body that is encrypted on this device is decrypted to the same text.
use sentinelmesh.Common.{
  ℕ, ◌≤◌, String, List, ◌++◌, some, ◌≡◌, refl, length, Option-cases, inl, inr, arith,
}
use sentinelmesh.Vault.{CryptoKey}
use sentinelmesh.Vault.RoundTrip.{take-vector, drop-vector, long_enough}
use sentinelmesh.ChatStore.{
  ChatDb, Cipher, get_or_create_encryption_key, encode, decode, encrypt_local_plaintext,
  decrypt_local_plaintext,
}

-- What the ciphertext of a text is, under a key and a vector.
abbrev pub sent : Cipher → CryptoKey → List ℕ → String → List ℕ
sent c key iv plaintext = c.encrypt key iv (c.encode_text plaintext)

-- The cipher, base64 and the text encoding give this text back; a vector has 12 bytes, and a
-- ciphertext a tag of 16.
pub record IsSent (c : Cipher) (key : CryptoKey) (iv : List ℕ) (plaintext : String) : Type 0 where
  pub vector : length iv ≡ 12
  pub tagged : 16 ≤ length (sent c key iv plaintext)
  pub carried :
      c.atob (c.btoa (iv ++ sent c key iv plaintext)) ≡ some (iv ++ sent c key iv plaintext)
  pub decrypts : c.decrypt key iv (sent c key iv plaintext) ≡ some (c.encode_text plaintext)
  pub decodes : c.decode_text (c.encode_text plaintext) ≡ plaintext

decode-encode :
    (c : Cipher) (key : CryptoKey) (iv : List ℕ) (plaintext : String)
    → IsSent c key iv plaintext
    → decode c (encode c iv (sent c key iv plaintext)) ≡ some (iv, sent c key iv plaintext)
unfolding decode encode
decode-encode c key iv plaintext h =
    rw
      (
        h.carried,
        long_enough iv (sent c key iv plaintext) h.vector h.tagged,
        take-vector iv (sent c key iv plaintext) h.vector,
        drop-vector iv (sent c key iv plaintext) h.vector,
      )
      refl

present :
    (generated key : CryptoKey) (db : ChatDb)
    → db.encryption_key ≡ some key
    → get_or_create_encryption_key generated db ≡ (key, db)
unfolding get_or_create_encryption_key
present generated key db e = ground (arith, e)

created :
    (generated : CryptoKey) (db : ChatDb)
    → (get_or_create_encryption_key generated db).1.encryption_key
      ≡ some (get_or_create_encryption_key generated db).0
unfolding get_or_create_encryption_key
created generated db = elim (Option-cases db.encryption_key) [
  | inl e ↦ ground (arith, e)
  | inr (key, e) ↦ ground (arith, e)
]

-- A text that is encrypted under the device key, which is made if there is none, is decrypted to the same text, whatever key a second call would generate, and the decryption stores nothing: if the cipher, base64 and the text encoding give this text back, a vector has 12 bytes and a ciphertext at least 16.
pub decrypt_local_plaintext-encrypted :
    (c : Cipher) (generated again : CryptoKey) (iv : List ℕ) (plaintext : String) (db : ChatDb)
    → IsSent c (get_or_create_encryption_key generated db).0 iv plaintext
    → decrypt_local_plaintext c again
        (encrypt_local_plaintext c generated iv plaintext db).0
        (encrypt_local_plaintext c generated iv plaintext db).1
      ≡ (some plaintext, (encrypt_local_plaintext c generated iv plaintext db).1)
unfolding decrypt_local_plaintext encrypt_local_plaintext
decrypt_local_plaintext-encrypted c generated again iv plaintext db h =
    rw
      (
        present again (get_or_create_encryption_key generated db).0
            (get_or_create_encryption_key generated db).1 (created generated db),
        decode-encode c (get_or_create_encryption_key generated db).0 iv plaintext h,
        h.decrypts,
        h.decodes,
      )
      refl
