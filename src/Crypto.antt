-- ===== src/Crypto.antt =====
-- internal/auth/crypto.go: Encrypt and Decrypt of secrets and configurations. AES-GCM of package
-- crypto is a parameter; the random nonce is an argument.
pub mod RoundTrip
use storage_gateway.Prelude.{
  ℕ, ◌+◌, ◌≡◌, Bool, true, false, ◌||◌, not, Option, none, some, List, [], ◌∷◌, ◌++◌, Str, length,
  take, drop, ltb, ◌==◌, if◌then◌else◌, Result, ok, err,
}

-- AES-GCM for a key: what is sealed opens again with the same nonce, and is longer by the tag.
pub record Gcm : Type 0 where
  pub seal : Str → Str → Str → Str
  pub unseal : Str → Str → Str → Option Str
  pub unseal-seal : (key nonce s : Str) → unseal key nonce (seal key nonce s) ≡ some s
  pub length-seal : (key nonce s : Str) → length (seal key nonce s) ≡ length s + 16

pub data CryptoError : Type 0 where
  bad_key no_randomness decrypt_failed : CryptoError

-- aes.NewCipher takes keys of 16, 24 and 32 bytes.
unfoldable pub valid_key : Str → Bool
valid_key key = length key == 16 || length key == 24 || length key == 32

-- The size of GCM's nonce and that of its tag.
abbrev pub nonce_size : ℕ
nonce_size = 12

abbrev pub overhead : ℕ
overhead = 16

module _ (gcm : Gcm) where
  abbrev sealed : Str → Str → Option Str → Result CryptoError Str
  sealed key s none = err no_randomness
  sealed key s (some nonce) = ok (nonce ++ gcm.seal key nonce s)

  -- `nonce` is what rand.Read gives, or none for its error.
  unfoldable pub encrypt : Option Str → Str → Str → Result CryptoError Str
  encrypt nonce key s = if valid_key key then sealed key s nonce else err bad_key

  abbrev opened : Option Str → Result CryptoError Str
  opened none = err decrypt_failed
  opened (some s) = ok s

  unfoldable pub decrypt : Str → Str → Result CryptoError Str
  decrypt key c =
      if not (valid_key key)
      then err bad_key
      else if ltb (length c) (nonce_size + overhead)
      then err decrypt_failed
      else opened (gcm.unseal key (take nonce_size c) (drop nonce_size c))
