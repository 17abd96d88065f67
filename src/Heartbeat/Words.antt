-- ===== src/Heartbeat/Words.antt =====
-- Big-endian words, `to_be_bytes` and `from_be_bytes` of src/heartbeat.rs.
use ws_fabric.Prelude.{
  ℕ, zero, suc, ◌+◌, ◌*◌, ◌/◌, ◌%◌, ◌<◌, ◌≡◌, refl, [], ◌∷◌, ◌++◌, arith, length, length-append,
}
use ws_fabric.Message.{Bytes}

-- The last so many bytes of a number.
pub to_be_bytes : ℕ → ℕ → Bytes
to_be_bytes zero n = []
to_be_bytes (suc w) n = to_be_bytes w (n / 256) ++ (n % 256 ∷ [])

abbrev from_bytes : ℕ → Bytes → ℕ
from_bytes acc [] = acc
from_bytes acc (b ∷ bs) = from_bytes (acc * 256 + b) bs

abbrev pub from_be_bytes : Bytes → ℕ
from_be_bytes bs = from_bytes 0 bs

from_bytes-append :
    (acc b : ℕ) (bs : Bytes) → from_bytes acc (bs ++ (b ∷ [])) ≡ from_bytes acc bs * 256 + b
from_bytes-append acc b [] = refl
from_bytes-append acc b (c ∷ bs) = from_bytes-append (acc * 256 + c) b bs

pub length-to_be_bytes : (w n : ℕ) → length (to_be_bytes w n) ≡ w
unfolding to_be_bytes
length-to_be_bytes zero n = refl
length-to_be_bytes (suc w) n =
    omega (
      arith,
      length-append (to_be_bytes w (n / 256)) (n % 256 ∷ []),
      length-to_be_bytes w (n / 256),
    )

-- A bound on the numbers of so many bytes.
abbrev pub bound : ℕ → ℕ
bound zero = 1
bound (suc w) = bound w * 256

-- The bytes of a number that fits into them are read back as it.
pub from_be_bytes-to_be_bytes : (w n : ℕ) → n < bound w → from_be_bytes (to_be_bytes w n) ≡ n
unfolding to_be_bytes
from_be_bytes-to_be_bytes zero n h = omega arith
from_be_bytes-to_be_bytes (suc w) n h = omega (
  arith,
  from_bytes-append 0 (n % 256) (to_be_bytes w (n / 256)),
  from_be_bytes-to_be_bytes w (n / 256) (omega arith),
)
