-- ===== src/Steps/Flags.antt =====
-- The tests of flags in the handlers of the version steps.
use endweave.Prelude.{ℕ, ◌*◌, ◌/◌, Bool, ◌==◌, ℤ, mask}

-- `v & bit`, as a truth value, for a power of two.
abbrev pub has_bit : ℤ → ℕ → Bool
has_bit v bit = (mask v (bit * 2) / bit) == 1
