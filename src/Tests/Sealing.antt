-- ===== src/Tests/Sealing.antt =====
-- Encryption with a stand-in for AES-GCM that appends a tag of sixteen zeros.
use storage_gateway.Prelude.{
  ◌+◌, ◌-◌, ◌≡◌, ◌∙◌, ap, ◌++◌, some, Option, Str, bytes, length, length-append, take, take-append,
  arith,
}
use storage_gateway.Crypto.{Gcm}

abbrev pub tag : Str
tag = bytes "0000000000000000"

abbrev pub append_tag : Str → Str → Str → Str
append_tag key nonce s = s ++ tag

abbrev pub drop_tag : Str → Str → Str → Option Str
drop_tag key nonce c = some (take (length c - 16) c)

pub length-append_tag : (key nonce s : Str) → length (append_tag key nonce s) ≡ length s + 16
length-append_tag key nonce s = length-append s tag

less_tag : (s : Str) → length (s ++ tag) - 16 ≡ length s
less_tag s = omega (arith, length-append s tag)

pub drop_tag-append_tag : (key nonce s : Str) → drop_tag key nonce (append_tag key nonce s) ≡ some s
drop_tag-append_tag key nonce s =
    ap some (ap (λ n. take n (s ++ tag)) (less_tag s) ∙ take-append s tag)

abbrev pub tagging : Gcm
tagging = record {
  seal = append_tag;
  unseal = drop_tag;
  unseal-seal = drop_tag-append_tag;
  length-seal = length-append_tag;
}
