-- ===== src/Reason/Examples.antt =====
-- The table of reason codes at concrete bytes.
use minimq.Errors.{as_result}
use minimq.Prelude.{ok, refl, ◌≡◌}
use minimq.Reason.{from_u8}

granted : as_result (from_u8 2) ≡ ok tt
unfolding as_result from_u8
granted = refl
