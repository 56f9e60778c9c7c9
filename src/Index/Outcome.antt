-- ===== src/Index/Outcome.antt =====
-- Results of the index classes of include/zfp/index.hpp: a method that throws leaves its object
-- with the assignments made so far, so the state stands beside the exception.
use zfp.Prelude.{◌≡◌}

-- The messages of the `zfp::exception`s that index.hpp throws.
pub data Exception : Type 0 where
  sequential_build : Exception
  index_overflow : Exception
  block_size_too_large : Exception
  block_offset_too_large : Exception

pub data Outcome {ℓ} (S : Type ℓ) : Type ℓ where
  done : S → Outcome S
  throw : Exception → S → Outcome S

infixl 5 ◌>>=◌
abbrev pub ◌>>=◌ {ℓ} : {S : Type ℓ} → Outcome S → (S → Outcome S) → Outcome S
done s >>= f = f s
throw e s >>= f = throw e s

-- The method returns normally, in a state that satisfies `P`.
abbrev pub Returns {ℓ κ} : {S : Type ℓ} → Outcome S → (S → Type κ) → Type (ℓ ⊔ κ)
Returns {S} r P = (s : S) × (r ≡ done s) × P s

-- The state that a method leaves.
abbrev pub settle {ℓ} : {S : Type ℓ} → Outcome S → S
settle (done s) = s
settle (throw e s) = s
