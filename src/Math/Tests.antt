-- ===== src/Math/Tests.antt =====
-- Runs of lib/Math.cc at single inputs.
use valkyrie.Base.{◌+◌, ◌^◌, ◌≡◌, none, arith}
use valkyrie.Math.{pow_of_2_loop}
use valkyrie.Math.Laws.{pow_of_2_loop_diverges}

pow_of_2_loop_diverges_example : pow_of_2_loop 1000 (2 ^ 63 + 1) 1 ≡ none
pow_of_2_loop_diverges_example = pow_of_2_loop_diverges 1000 (2 ^ 63 + 1) (omega arith)
