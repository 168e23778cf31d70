-- ===== src/Crypto.antt =====
-- packages/crypto-core: the errors that it throws, and the hash function of the runtime
-- (`createHash('sha256')` of node:crypto), which the model takes as an instance argument.
pub mod LeafHash
pub mod Merkle
pub mod Canonical
pub mod Signing
mod Tests
use mathlib.Core.List.{Memᴰ}
use proveria.Common.{ℕ, ◌≡◌, ◌≢◌, List, All, length}
use proveria.Bytes.{Bytes, Text, IsByte}

-- What the package throws, with the values that its messages show.
pub data Error : Type 0 where
  length_out_of_range : ℕ → Error
  payload_hash_length : ℕ → Error
  unknown_leaf_type : Text → Error
  child_length : Error
  empty_leaf_set : Error
  leaf_length : ℕ → Error
  duplicate_leaf_hash : Error
  target_length : Error
  target_not_in_leaf_set : Error

-- SHA-256: a digest of 32 bytes. Nothing is assumed of collisions.
pub record Sha256 : Type 0 where
  pub digest : Bytes → Bytes
  pub length-digest : (m : Bytes) → length (digest m) ≡ 32
  pub digest-IsByte : (m : Bytes) → All IsByte (digest m)

-- Two messages with one digest, one from each of two lists. Theorems of integrity end "or here is a
-- collision" among the messages that the two runs in question have hashed: the lists are computed from
-- their inputs, since collisions as such exist.
pub record Collision ⦃H : Sha256⦄ (xs ys : List Bytes) : Type 0 where
  pub first : Bytes
  pub second : Bytes
  pub hashed : Memᴰ first xs
  pub hashed_too : Memᴰ second ys
  pub differ : first ≢ second
  pub collide : H.digest first ≡ H.digest second
