-- ===== src/Crypto/Laws.antt =====
-- Encryption and decryption of a field, given an authenticated cipher.
use wapgo.Base.{
  take-append, drop-append, take-drop, ◌≤◌, ◌≡◌, some, ◌++◌, length, take, drop, length-append,
  length-take, sym, ap, ◌∙◌, ok, ok_injective, arith, Option-cases, inl, inr,
}
use wapgo.Base.Text.{Text}
use wapgo.Crypto.{Ciphers, encrypt, decrypt_bytes, decrypt}

-- What is assumed: opening gives back what was sealed with the same nonce, and opens nothing else
-- (the tag is a function of key, nonce and text); base64 decodes what it encoded.
pub record IsAead {C : Type 0} (lib : Ciphers C) : Type 0 where
  pub open_seal :
      (c : C) (nonce plaintext : Text)
      → lib.open_sealed c nonce (lib.seal c nonce plaintext) ≡ some plaintext
  pub open_only :
      (c : C) (nonce sealed plaintext : Text)
      → lib.open_sealed c nonce sealed ≡ some plaintext
      → sealed ≡ lib.seal c nonce plaintext
  pub decode_encode : (s : Text) → lib.decode (lib.encode s) ≡ some s

module _ {C : Type 0} (lib : Ciphers C) (law : IsAead lib) (c : C) where
  decrypt_bytes-sealed :
      (nonce plaintext : Text)
      → length nonce ≡ lib.nonce_size c
      → decrypt_bytes lib c (nonce ++ lib.seal c nonce plaintext) ≡ ok plaintext
  unfolding decrypt_bytes
  decrypt_bytes-sealed nonce plaintext size =
      let sealed = lib.seal c nonce plaintext in
      ground (
        arith,
        length-append nonce sealed,
        take-append nonce sealed (lib.nonce_size c) size,
        drop-append nonce sealed (lib.nonce_size c) size,
        law.open_seal c nonce plaintext,
      )

  -- A field comes back: what is encrypted, with any nonce of the cipher's size, decrypts under the
  -- same key to the text that went in.
  pub decrypt-encrypt :
      (nonce plaintext encoded : Text)
      → length nonce ≡ lib.nonce_size c
      → encrypt lib c (some nonce) plaintext ≡ ok encoded
      → decrypt lib c encoded ≡ ok plaintext
  unfolding encrypt decrypt
  decrypt-encrypt nonce plaintext encoded size made = rw (← (ok_injective made)) (
      rw (law.decode_encode (nonce ++ lib.seal c nonce plaintext), decrypt)
        (decrypt_bytes-sealed nonce plaintext size))

  decrypt_bytes-IsSealed :
      (bytes plaintext : Text)
      → decrypt_bytes lib c bytes ≡ ok plaintext
      → (nonce : Text) × (length nonce ≡ lib.nonce_size c)
        × (bytes ≡ nonce ++ lib.seal c nonce plaintext)
  unfolding decrypt_bytes
  decrypt_bytes-IsSealed bytes plaintext opened =
      let ns = lib.nonce_size c in
      let nonce = take ns bytes in
      let long : ns ≤ length bytes = ground arith in
      let answer : lib.open_sealed c nonce (drop ns bytes) ≡ some plaintext =
        ground (arith, Option-cases (lib.open_sealed c nonce (drop ns bytes))) in
      (
        nonce,
        omega (arith, length-take ns bytes),
        rw (← (law.open_only c nonce (drop ns bytes) plaintext answer)) (sym (take-drop ns bytes)),
      )

  -- Nothing but what encryption makes is accepted: if decryption succeeds, the decoded bytes are a
  -- nonce of the cipher's size and the seal of the result under it.
  pub decrypt-IsSealed :
      (encoded plaintext : Text)
      → decrypt lib c encoded ≡ ok plaintext
      → (nonce : Text) × (length nonce ≡ lib.nonce_size c)
        × (lib.decode encoded ≡ some (nonce ++ lib.seal c nonce plaintext))
  unfolding decrypt
  decrypt-IsSealed encoded plaintext opened = elim (Option-cases (lib.decode encoded)) [
    | inl garbled ↦ absurd (ground arith)
    | inr (bytes, decoded) ↦
        let facts = decrypt_bytes-IsSealed bytes plaintext (ground arith) in
        (facts.0, facts.1, decoded ∙ ap some facts.2)
  ]
