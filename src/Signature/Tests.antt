-- ===== src/Signature/Tests.antt =====
-- Known FNV-1a hashes, and the built-in signature.
use net_sentinel.Base.{◌≡◌, ◌≢◌, refl, true, false, [], ◌∷◌, some, arith}
use net_sentinel.Base.Text.{codes}
use net_sentinel.Signature.{
  fnv1a_from, fnv1a_hash, has_hash, add_hash, add_signature, make_database, matches,
  k_eicar_test_string,
}
use net_sentinel.Signature.Hash.{fnv1a_hash-changed_byte}
use net_sentinel.Signature.Matching.{add_signatures, matches-add_signatures}

program : Unit {0}
unfolding fnv1a_from fnv1a_hash has_hash add_hash add_signature make_database matches
program = tt

known_hashes :
    (fnv1a_hash [] ≡ 0xcbf29ce484222325)
    × (fnv1a_hash (codes "a") ≡ 0xaf63dc4c8601ec8c)
    × (fnv1a_hash (codes "foobar") ≡ 0x85944171f73967e8)
unfolding program
known_hashes = (refl, refl, refl)

builtin :
    (matches make_database (some k_eicar_test_string) ≡ true)
    × (matches make_database (some (codes "hello")) ≡ false)
    × (matches make_database (some []) ≡ false)
    × (matches (add_signature (codes "hello") make_database) (some (codes "hello")) ≡ true)
unfolding program
builtin = (refl, refl, refl, refl)

matches-add_signatures_example :
    matches (add_signatures (codes "bad" ∷ []) make_database) (some (codes "bad")) ≡ true
unfolding program
matches-add_signatures_example = matches-add_signatures (codes "bad" ∷ []) (some (codes "bad"))

fnv1a_hash-changed_byte_example : fnv1a_hash (codes "foobar!") ≢ fnv1a_hash (codes "foobaz!")
fnv1a_hash-changed_byte_example =
    fnv1a_hash-changed_byte (codes "fooba") (codes "!") b'r' b'z' (omega arith) (omega arith)
      (omega arith, tt) (λ e. absurd (omega arith))
