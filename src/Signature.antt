-- ===== src/Signature.antt =====
-- include/netsentinel/signature_db.hpp and src/analysis/signature_db.cpp: FNV-1a hashes of whole
-- payloads, looked up in a set of known-bad hashes. The set is a list, as only membership is read;
-- `hash ^= byte` and the product are those of uint64_t.
pub mod Hash
pub mod Matching
mod Tests
use Prim.Native.Nat.{bit_xor}
use net_sentinel.Base.{
  ℕ, ◌*◌, ◌%◌, ◌^◌, Bool, true, false, not, ◌&&◌, ◌||◌, ◌==◌, if◌then◌else◌, List, [], ◌∷◌, Option,
  none, some, length,
}
use net_sentinel.Base.Text.{codes}

abbrev pub k_fnv_offset_basis : ℕ
k_fnv_offset_basis = 0xcbf29ce484222325

abbrev pub k_fnv_prime : ℕ
k_fnv_prime = 0x100000001b3

abbrev pub k_eicar_test_string : List ℕ
k_eicar_test_string = codes "X5O!P%@AP[4\\PZX54(P^)7CC)7}$EICAR-STANDARD-ANTIVIRUS-TEST-FILE!$H+H*"

-- The loop of `fnv1a_hash`, at a hash so far.
unfoldable pub fnv1a_from : ℕ → List ℕ → ℕ
fnv1a_from hash [] = hash
fnv1a_from hash (byte ∷ bytes) = fnv1a_from (bit_xor hash byte * k_fnv_prime % 2 ^ 64) bytes

unfoldable pub fnv1a_hash : List ℕ → ℕ
unfolding fnv1a_from
fnv1a_hash bytes = fnv1a_from k_fnv_offset_basis bytes

pub record SignatureDatabase : Type 0 where
  pub known_bad_hashes : List ℕ

-- Whether a hash is in the set.
unfoldable pub has_hash : ℕ → List ℕ → Bool
has_hash hash [] = false
has_hash hash (h ∷ hashes) = (h == hash) || has_hash hash hashes

unfoldable pub add_hash : ℕ → SignatureDatabase → SignatureDatabase
add_hash hash db = record {
  known_bad_hashes =
      if has_hash hash db.known_bad_hashes then db.known_bad_hashes else hash ∷ db.known_bad_hashes;
}

unfoldable pub add_signature : List ℕ → SignatureDatabase → SignatureDatabase
unfolding add_hash
add_signature raw_bytes db = add_hash (fnv1a_hash raw_bytes) db

-- The constructor.
unfoldable pub make_database : SignatureDatabase
unfolding add_signature
make_database = add_signature k_eicar_test_string (record { known_bad_hashes = [] })

-- A null pointer is `none`.
unfoldable pub matches : SignatureDatabase → Option (List ℕ) → Bool
unfolding has_hash
matches db none = false
matches db (some bytes) =
    if length bytes == 0 then false else has_hash (fnv1a_hash bytes) db.known_bad_hashes
