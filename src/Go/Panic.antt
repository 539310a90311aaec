-- ===== src/Go/Panic.antt =====
-- Calls that may panic: a nil pointer or an index out of range ends the goroutine, and nothing in
-- the program recovers.
use always_cache.Base.{◌≡◌, ◌⊎◌, inl, inr, refl}

pub data Call {ℓ} (A : Type ℓ) : Type ℓ where
  returns : A → Call A
  panics : Call A

infixl 5 ◌>>=◌
abbrev pub ◌>>=◌ {ℓ κ} : {A : Type ℓ} {B : Type κ} → Call A → (A → Call B) → Call B
returns a >>= f = f a
panics >>= f = panics

pub Call-cases {ℓ} : {A : Type ℓ} (c : Call A) → (c ≡ panics) ⊎ ((x : A) × (c ≡ returns x))
Call-cases panics = inl refl
Call-cases (returns x) = inr (x, refl)
