-- ===== src/Rotate/Flush.antt =====
-- cmd/rotate-key/main.go: the flush of the cached rows that ends a rotation. SCAN and DEL of Redis are
-- a parameter with its own state.
use storage_gateway.Prelude.{
  ℕ, zero, suc, ◌+◌, Option, none, some, List, [], ◌∷◌, ◌==◌, if◌then◌else◌, Str, bytes,
}

-- SCAN from a cursor gives keys and the next cursor; DEL gives the number of keys that were there. A
-- failed command is none.
pub record Scanner (R : Type 0) : Type 0 where
  pub scan : ℕ → Str → ℕ → R → Option (List Str × ℕ) × R
  pub delete : List Str → R → Option ℕ × R

pub data FlushError : Type 0 where
  scanning deleting : FlushError

module _ {R : Type 0} (redis : Scanner R) where
  abbrev pub Flushed : Type 0
  Flushed = Option (Option FlushError × ℕ × R)

  -- The keys of one answer; an empty one is not sent to DEL.
  abbrev pub drop_keys : List Str → R → Option ℕ × R
  drop_keys [] r = (some 0, r)
  drop_keys (k ∷ ks) r = redis.delete (k ∷ ks) r

  abbrev after_delete : (ℕ → R → Flushed) → ℕ → ℕ → Option ℕ × R → Flushed
  after_delete go next deleted (none, r) = some (some deleting, deleted, r)
  after_delete go next deleted (some n, r) =
      let more = go (deleted + n) r in if next == 0 then some (none, deleted + n, r) else more

  abbrev after_scan : (ℕ → ℕ → R → Flushed) → ℕ → Option (List Str × ℕ) × R → Flushed
  after_scan go deleted (none, r) = some (some scanning, deleted, r)
  after_scan go deleted (some (ks, next), r) = after_delete (go next) next deleted (drop_keys ks r)

  -- The loop from a cursor, with the number of keys deleted so far; on fuel for the number of rounds,
  -- since only Redis says when the cursor is 0 again.
  unfoldable pub flush_from : ℕ → ℕ → ℕ → R → Flushed
  flush_from zero cursor deleted r = none
  flush_from (suc n) cursor deleted r =
      after_scan (flush_from n) deleted (redis.scan cursor (bytes "sgw:*") 100 r)

  unfoldable pub flush_sgw_keys : ℕ → R → Flushed
  flush_sgw_keys rounds r = flush_from rounds 0 0 r
