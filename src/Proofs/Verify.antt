-- ===== src/Proofs/Verify.antt =====
-- packages/proofs/src/verify.ts: a match package is checked from its own contents.
use proveria.Common.{
  Bool, false, Option, none, some, map, length, ◌==◌, if◌then◌else◌, Result, ok, ◌>>=◌,
}
use proveria.Bytes.{same_text}
use proveria.Bytes.Hex.{to_hex, from_hex}
use proveria.Crypto.{Error, Sha256}
use proveria.Crypto.LeafHash.{LeafInput, is_leaf_type, compute_leaf_hash}
use proveria.Crypto.Merkle.{MerkleProofStep, verify_merkle_proof}
use proveria.Manifest.{sha256_name}
use proveria.Proofs.{
  ResultType, match_result, no_match_result, PathStep, MatchPayload, ResultPackage,
}

abbrev pub decode_step : PathStep → MerkleProofStep
decode_step s = record { sibling = from_hex s.sibling; position = s.position }

abbrev pub package_input : ResultPackage → MatchPayload → LeafInput
package_input pkg found = record {
  protocol_version = pkg.protocol_version;
  leaf_type = found.leaf_type;
  hash_algorithm = sha256_name;
  canonical_payload_hash = from_hex pkg.submitted_hash;
}

module _ ⦃H : Sha256⦄ where
  -- The checks of a match payload. `Buffer.from(h, 'hex')` does not throw on a text.
  unfoldable pub verify_payload : ResultPackage → MatchPayload → Result Error Bool
  verify_payload pkg found =
      if is_leaf_type found.leaf_type
      then if length (from_hex pkg.submitted_hash) == 32
        then if length (from_hex found.leaf_id) == 32
          then compute_leaf_hash (package_input pkg found) >>= (λ recomputed.
            if same_text (to_hex recomputed) found.leaf_id
            then verify_merkle_proof (from_hex found.leaf_id) (map decode_step found.proof_path)
                (from_hex pkg.attestation.merkle_root)
            else ok false)
          else ok false
        else ok false
      else ok false

  unfoldable pub verify_for : ResultType → Option MatchPayload → ResultPackage → Result Error Bool
  verify_for match_result (some found) pkg = verify_payload pkg found
  verify_for match_result none pkg = ok false
  verify_for no_match_result found pkg = ok false

  unfoldable pub verify_match_proof : ResultPackage → Result Error Bool
  unfolding verify_for
  verify_match_proof pkg = verify_for pkg.result_type pkg.match pkg
