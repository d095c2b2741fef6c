-- ===== src/V2/Version.antt =====
-- generateVersion: the version fits 64 bits, and says which random bytes and clock it came from.
use acor.Prelude.{ℕ, ◌%◌, ◌^◌, ◌<◌, ◌≡◌, ◌↔◌, arith}
use acor.V2.{generate_version}

-- From two bytes, a version is below 2^64; two versions are the same exactly if their bytes are and
-- their clocks agree in the lower 48 bits.
pub generate_version_iff :
    (b0 b1 t c0 c1 u : ℕ)
    → b0 < 256
    → b1 < 256
    → c0 < 256
    → c1 < 256
    → (generate_version b0 b1 t < 2 ^ 64)
      × ((generate_version b0 b1 t ≡ generate_version c0 c1 u)
          ↔ (b0 ≡ c0) × (b1 ≡ c1) × (t % 2 ^ 48 ≡ u % 2 ^ 48))
unfolding generate_version
generate_version_iff b0 b1 t c0 c1 u h0 h1 k0 k1 =
    (omega arith, (λ e. (omega arith, omega arith, omega arith), λ (e, f, g). omega arith))
