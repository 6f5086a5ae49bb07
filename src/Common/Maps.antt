-- ===== src/Common/Maps.antt =====
-- Arrays indexed by a log id or another number, as functions.
use Prim.Native.Nat.{ℕ}
use android_system_logging.Common.Tests.{◌==◌, if◌then◌else◌}

module _ {ℓ} {A : Type ℓ} where
  abbrev pub update : (ℕ → A) → ℕ → A → ℕ → A
  update f i a j = if i == j then a else f j
