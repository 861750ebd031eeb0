-- ===== src/Shared/Numbers.antt =====
-- Time as the program counts it: instants and durations in microseconds.
use Prim.Native.Nat.{ℕ, ◌*◌}

abbrev pub seconds : ℕ → ℕ
seconds n = n * 1000000

abbrev pub minutes : ℕ → ℕ
minutes n = n * 60000000

abbrev pub days : ℕ → ℕ
days n = n * 86400000000
