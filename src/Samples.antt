-- ===== src/Samples.antt =====
-- A concrete hash function for the runs in the modules of tests: a checksum in 32 copies, in the
-- place of SHA-256.
pub mod TwoLeaves
use proveria.Common.{
  ℕ, zero, suc, ◌+◌, ◌*◌, ◌%◌, ◌<◌, [], ◌∷◌, arith, replicate, length, ◌≡◌, length-replicate, All,
}
use proveria.Bytes.{Bytes, IsByte}
use proveria.Common.{◌++◌, refl}
use proveria.Bytes.{same_text}
use proveria.Bytes.Order.{same_text_iff}
use proveria.Crypto.{Sha256}
use proveria.Crypto.Signing.{Ed25519}

abbrev checksum : ℕ → Bytes → ℕ
checksum acc [] = acc
checksum acc (b ∷ rest) = checksum ((acc * 31 + b + 7) % 65521) rest

copies-IsByte : (n b : ℕ) → b < 256 → All IsByte (replicate n b)
copies-IsByte zero b h = tt
copies-IsByte (suc n) b h = (h, copies-IsByte n b h)

pub toy_range : (m : Bytes) → All IsByte (replicate 32 (checksum 1 m % 256))
toy_range m = copies-IsByte 32 (checksum 1 m % 256) (omega arith)

pub toy_size : (m : Bytes) → length (replicate 32 (checksum 1 m % 256)) ≡ 32
toy_size m = length-replicate 32 (checksum 1 m % 256)

instance abbrev pub toy_hash : Sha256
toy_hash = record {
  digest = λ m. replicate 32 (checksum 1 m % 256);
  length-digest = toy_size;
  digest-IsByte = toy_range;
}

-- A concrete scheme of signatures for those runs: the message and the key side by side. It is no
-- secure one.
instance abbrev pub toy_ed25519 : Ed25519
toy_ed25519 = record {
  sign = λ m k. m ++ k;
  verify = λ m s p. same_text s (m ++ p);
  public_key = λ k. k;
  verify-sign = λ m k. (same_text_iff (m ++ k) (m ++ k)).1 refl;
}
