-- ===== src/Crypto/RoundTrip.antt =====
-- internal/auth/crypto.go: what is encrypted is decrypted again.
use storage_gateway.Prelude.{
  ◌+◌, ◌<◌, ◌≡◌, refl, sym, ◌∙◌, inl, inr, true, false, Option, none, some, [], ◌++◌, arith, ltb,
  Bool-cases, Str, length, take, drop, length-append, take-append, drop-append, ok, err,
  ok_injective,
}
use mathlib.Core.Path.{subst}
use storage_gateway.Crypto.{Gcm, valid_key, encrypt, decrypt, decrypt_failed, nonce_size, overhead}

module _ (gcm : Gcm) (key nonce s : Str) (sized : length nonce ≡ 12) where
  not_short : ltb (length (nonce ++ gcm.seal key nonce s)) (nonce_size + overhead) ≡ false
  not_short =
      rw (length-append nonce (gcm.seal key nonce s), sized, gcm.length-seal key nonce s)
        (ground arith)

  take-nonce : take nonce_size (nonce ++ gcm.seal key nonce s) ≡ nonce
  take-nonce =
      subst (λ n. take n (nonce ++ gcm.seal key nonce s) ≡ nonce) sized
        (take-append nonce (gcm.seal key nonce s))

  drop-nonce : drop nonce_size (nonce ++ gcm.seal key nonce s) ≡ gcm.seal key nonce s
  drop-nonce =
      subst (λ n. drop n (nonce ++ gcm.seal key nonce s) ≡ gcm.seal key nonce s) sized
        (drop-append nonce (gcm.seal key nonce s))

ltb_short : (s : Str) → length s < 28 → ltb (length s) (nonce_size + overhead) ≡ true
ltb_short s h = ground arith

-- With a key of a size that AES takes and a nonce of twelve bytes, Encrypt returns a text that
-- Decrypt with the same key turns back into what was encrypted, and Decrypt refuses a text shorter
-- than a nonce and a tag.
decrypt-encrypt :
    (gcm : Gcm) (key nonce s short : Str)
    → valid_key key ≡ true
    → length nonce ≡ 12
    → length short < 28
    → (encrypt gcm (some nonce) key s ≡ ok (nonce ++ gcm.seal key nonce s))
      × (decrypt gcm key (nonce ++ gcm.seal key nonce s) ≡ ok s)
      × (decrypt gcm key short ≡ err decrypt_failed)
decrypt-encrypt gcm key nonce s short valid sized h = (
  unfold encrypt in rw valid refl,
  unfold decrypt in
      rw
        (
          valid,
          not_short gcm key nonce s sized,
          take-nonce gcm key nonce s sized,
          drop-nonce gcm key nonce s sized,
          gcm.unseal-seal key nonce s,
        )
        refl,
  unfold decrypt in rw (valid, ltb_short short h) refl,
)

-- Whatever Encrypt returns without an error, Decrypt with the same key turns back.
pub decrypt-encrypted :
    (gcm : Gcm) (key s c : Str) (nonce : Option Str)
    → ((n : Str) → nonce ≡ some n → length n ≡ 12)
    → encrypt gcm nonce key s ≡ ok c
    → decrypt gcm key c ≡ ok s
unfolding encrypt
decrypt-encrypted gcm key s c none h e = elim (Bool-cases (valid_key key)) [
  | inl valid ↦ ground (arith, rw valid at e)
  | inr invalid ↦ ground (arith, rw invalid at e)
]
decrypt-encrypted gcm key s c (some n) h e = elim (Bool-cases (valid_key key)) [
  | inl valid ↦
      let done = decrypt-encrypt gcm key n s [] valid (h n refl) (omega arith) in
      subst (λ t. decrypt gcm key t ≡ ok s) (ok_injective (sym done.0 ∙ e)) done.1
  | inr invalid ↦ ground (arith, rw invalid at e)
]
