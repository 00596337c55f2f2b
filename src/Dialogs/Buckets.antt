-- ===== src/Dialogs/Buckets.antt =====
-- Virtual buckets of dialogs: src/dialog/dialog_utils.hpp and chat-service/src/dialog/dialog_utils.hpp,
-- which hold the same code.
use otus_highload_architect.Prelude.{
  ℕ, ◌*◌, ◌%◌, ◌^◌, ◌<◌, ◌≡◌, ap, [], ◌∷◌, arith, if◌then◌else◌, Uuid, bytes_lt, bytes_lt_cases,
}
use otus_highload_architect.Prelude.Bits.{bit_xor}

abbrev pub bucket_count : ℕ
bucket_count = 1024

unfoldable pub min_uuid : Uuid → Uuid → Uuid
min_uuid u1 u2 = if bytes_lt u1 u2 then u1 else u2

-- The loop of `FnvHash`, on 64-bit words.
unfoldable pub fnv_from : ℕ → Uuid → ℕ
fnv_from hash [] = hash
fnv_from hash (byte ∷ rest) = fnv_from (bit_xor hash byte * 1099511628211 % 2 ^ 64) rest

unfoldable pub fnv_hash : Uuid → ℕ
unfolding fnv_from
fnv_hash uuid = fnv_from 14695981039346656037 uuid

unfoldable pub get_virtual_bucket : Uuid → Uuid → ℕ
get_virtual_bucket user1 user2 = fnv_hash (min_uuid user1 user2) % bucket_count

-- A dialog has one bucket, whichever of its two users comes first, and the bucket is one of the 1024.
pub get_virtual_bucket_lem :
    (user1 user2 : Uuid)
    → (get_virtual_bucket user1 user2 ≡ get_virtual_bucket user2 user1)
      × (get_virtual_bucket user1 user2 < bucket_count)
unfolding get_virtual_bucket min_uuid
get_virtual_bucket_lem user1 user2 =
    (ground (arith, bytes_lt_cases user1 user2, λ (e : user1 ≡ user2). ap fnv_hash e), omega arith)
