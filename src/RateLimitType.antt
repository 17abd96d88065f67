-- ===== src/RateLimitType.antt =====
-- src/ratelimit.rs, `RateLimitType`: the error type names it too.
use ws_fabric.Prelude.{ℕ, List, [], ◌∷◌, Bool, true, ◌==◌, ◌≡◌, ◌↔◌, Eq, arith}

pub data RateLimitType : Type 0 where
  message byte operation : RateLimitType

-- `RateLimitType::all`
abbrev pub all_types : List RateLimitType
all_types = RateLimitType.message ∷ RateLimitType.byte ∷ RateLimitType.operation ∷ []

abbrev index : RateLimitType → ℕ
index RateLimitType.message = 0
index RateLimitType.byte = 1
index RateLimitType.operation = 2

abbrev pub same_type : RateLimitType → RateLimitType → Bool
same_type a b = index a == index b

pub same_type_iff : (a b : RateLimitType) → (same_type a b ≡ true) ↔ (a ≡ b)
same_type_iff a b = ground arith

instance abbrev pub type_eq : Eq RateLimitType
type_eq = record { beq = same_type; beq_iff = same_type_iff }
