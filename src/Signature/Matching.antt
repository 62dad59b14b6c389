-- ===== src/Signature/Matching.antt =====
-- The database as a set of hashes.
use net_sentinel.Base.{
  ℕ, ◌≡◌, refl, Bool, false, not, ◌&&◌, ◌||◌, ◌==◌, List, [], ◌∷◌, Option, none, some, length,
  arith,
}
use net_sentinel.Signature.{
  fnv1a_hash, SignatureDatabase, has_hash, add_hash, add_signature, make_database, matches,
  k_eicar_test_string,
}

has_hash-add_hash :
    (hash other : ℕ) (db : SignatureDatabase)
    → has_hash other (add_hash hash db).known_bad_hashes
      ≡ ((hash == other) || has_hash other db.known_bad_hashes)
unfolding add_hash has_hash
has_hash-add_hash hash other db = ground arith

-- A database to which signatures are added, in any order.
abbrev pub add_signatures : List (List ℕ) → SignatureDatabase → SignatureDatabase
add_signatures [] db = db
add_signatures (s ∷ signatures) db = add_signature s (add_signatures signatures db)

-- Whether the payload has the hash of one of the signatures.
abbrev pub same_hash : List ℕ → List (List ℕ) → Bool
same_hash bytes [] = false
same_hash bytes (s ∷ signatures) = (fnv1a_hash s == fnv1a_hash bytes) || same_hash bytes signatures

has_hash-add_signatures :
    (bytes : List ℕ) (signatures : List (List ℕ)) (db : SignatureDatabase)
    → has_hash (fnv1a_hash bytes) (add_signatures signatures db).known_bad_hashes
      ≡ (same_hash bytes signatures || has_hash (fnv1a_hash bytes) db.known_bad_hashes)
unfolding add_signature
has_hash-add_signatures bytes [] db = refl
has_hash-add_signatures bytes (s ∷ signatures) db = ground (
  arith,
  has_hash-add_hash (fnv1a_hash s) (fnv1a_hash bytes) (add_signatures signatures db),
  has_hash-add_signatures bytes signatures db,
)

-- After any signatures are added to a fresh database, a payload matches exactly if it is not empty and
-- has the FNV-1a hash of one of them or of the EICAR test string. A null pointer never matches.
pub matches-add_signatures :
    (signatures : List (List ℕ)) (payload : Option (List ℕ))
    → matches (add_signatures signatures make_database) payload ≡ elim payload [
      | none ↦ false
      | some bytes ↦
          not (length bytes == 0)
          && (same_hash bytes signatures || (fnv1a_hash k_eicar_test_string == fnv1a_hash bytes))
    ]
unfolding matches make_database add_signature add_hash has_hash
matches-add_signatures signatures none = refl
matches-add_signatures signatures (some bytes) =
    ground (arith, has_hash-add_signatures bytes signatures make_database)
