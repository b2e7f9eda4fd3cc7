-- ===== src/Reason/Codes.antt =====
-- The table of reason codes read both ways, and the verdict on a code off the wire.
use minimq.Errors.{PeerError, rejected}
use minimq.Outbound.{any}
use minimq.Prelude.{Bool, List, Result, [], err, false, ok, refl, true, ℕ, ◌==◌, ◌∷◌, ◌≡◌}
use minimq.Reason.{ReasonCode, from_u8, success, to_u8, unknown}

pub from_u8-to_u8 : (code : ReasonCode) → from_u8 (to_u8 code) ≡ code
unfolding from_u8 to_u8
from_u8-to_u8 success = refl
from_u8-to_u8 code = refl

-- The numbers that MQTT 5.0 (2.4) gives to reason codes: those of success, and those of failure.
abbrev pub success_numbers : List ℕ
success_numbers = 0 ∷ 1 ∷ 2 ∷ 4 ∷ 16 ∷ 17 ∷ 24 ∷ 25 ∷ []

abbrev pub failure_numbers : List ℕ
failure_numbers =
    128 ∷ 129 ∷ 130 ∷ 131 ∷ 132 ∷ 133 ∷ 134 ∷ 135 ∷ 136 ∷ 137 ∷ 140 ∷ 141 ∷ 142 ∷ 143 ∷ 144 ∷ 145
    ∷ 146 ∷ 147 ∷ 148 ∷ 149 ∷ 150 ∷ 151 ∷ 152 ∷ 153 ∷ 154 ∷ 155 ∷ 156 ∷ 157 ∷ 158 ∷ 159 ∷ 160 ∷ 161
    ∷ 162 ∷ []

abbrev pub one_of : List ℕ → ℕ → Bool
one_of numbers b = any (λ n. n == b) numbers

-- The verdict on a byte: success, a failure under the code with that number, or an unknown code.
abbrev pub Judged : ℕ → Result PeerError (Unit {0}) → Type 0
Judged b r =
    (one_of success_numbers b ≡ true → r ≡ ok tt)
    × (one_of failure_numbers b ≡ true
        → (code : ReasonCode) × (to_u8 code ≡ b) × (r ≡ err (rejected code)))
    × (one_of success_numbers b ≡ false
        → one_of failure_numbers b ≡ false
        → r ≡ err (rejected unknown))
