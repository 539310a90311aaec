-- ===== src/Go/Conv/Laws.antt =====
-- A number's decimal text is read back as the number.
use always_cache.Base.{
  ℕ, zero, suc, ◌+◌, ◌/◌, ◌%◌, ◌≤◌, ◌<◌, ◌≡◌, refl, [], ◌∷◌, some, arith, ltb, Bool-cases, All, ◌≢◌,
  true, inl, inr,
}
use always_cache.Base.Int.{ℤ, pos, negsuc, FitsInt64}
use always_cache.Go.Strings.{Str, is_digit}
use always_cache.Go.Conv.{
  parse_from, parse_digits, parse_uint, parse_int, max_uint64, digits_from, format_uint, format_int,
}

parse_last :
    (max n : ℕ) (out : Str)
    → n ≤ max
    → parse_from max (n / 10) ((b'0' + n % 10) ∷ out) ≡ parse_from max n out
unfolding parse_from
parse_last max n out h = ground arith

parse_one :
    (max n : ℕ) (out : Str)
    → n ≤ max
    → n < 10
    → parse_from max 0 ((b'0' + n % 10) ∷ out) ≡ parse_from max n out
unfolding parse_from
parse_one max n out h k = ground arith

parse_from-digits_from :
    (max fuel n : ℕ) (out : Str)
    → n < fuel
    → n ≤ max
    → parse_from max 0 (digits_from fuel n out) ≡ parse_from max n out
unfolding digits_from
parse_from-digits_from max zero n out h k = elim h [ ]
parse_from-digits_from max (suc fuel) n out h k = elim (Bool-cases (ltb n 10)) [
  | inl small ↦ rw small (parse_one max n out k (ground arith))
  | inr large ↦
      let ih =
        parse_from-digits_from max fuel (n / 10) ((b'0' + n % 10) ∷ out) (ground arith)
          (omega arith) in
      rw (large, ih) (parse_last max n out k)
]

-- The text begins with a digit.
abbrev HasDigit : Str → Type 0
HasDigit [] = ⊥
HasDigit (c ∷ s) = (b'0' ≤ c) × (c ≤ b'9')

digits_from-HasDigit :
    (fuel n : ℕ) (out : Str)
    → HasDigit ((b'0' + n % 10) ∷ out)
    → HasDigit (digits_from (suc fuel) n out)
unfolding digits_from
digits_from-HasDigit zero n out h = ground arith
digits_from-HasDigit (suc fuel) n out h = elim (Bool-cases (ltb n 10)) [
  | inl small ↦ rw small h
  | inr large ↦ rw large (digits_from-HasDigit fuel (n / 10) _ (omega arith))
]

format_uint-HasDigit : (n : ℕ) → HasDigit (format_uint n)
unfolding format_uint
format_uint-HasDigit n = digits_from-HasDigit n n [] (omega arith)

parse_digits-parse_from : (max : ℕ) (s : Str) → HasDigit s → parse_digits max s ≡ parse_from max 0 s
unfolding parse_digits
parse_digits-parse_from max [] h = elim h [ ]
parse_digits-parse_from max (c ∷ s) h = refl

parse_digits-format_uint : (max n : ℕ) → n ≤ max → parse_digits max (format_uint n) ≡ some n
unfolding parse_from format_uint
parse_digits-format_uint max n h =
    rw (parse_digits-parse_from max _ (format_uint-HasDigit n))
      (parse_from-digits_from max (suc n) n [] (omega arith) h)

pub parse_uint-format_uint : (n : ℕ) → n ≤ max_uint64 → parse_uint (format_uint n) ≡ some n
unfolding parse_uint
parse_uint-format_uint n h = parse_digits-format_uint max_uint64 n h

parse_int_unsigned :
    (s : Str) (n : ℕ)
    → HasDigit s
    → parse_digits 9223372036854775807 s ≡ some n
    → parse_int s ≡ some (pos n)
unfolding parse_int
parse_int_unsigned [] n h e = elim h [ ]
parse_int_unsigned (c ∷ s) n h e = ground arith

pub parse_int-format_int : (z : ℤ) → FitsInt64 z → parse_int (format_int z) ≡ some z
unfolding format_int
parse_int-format_int (pos n) h =
    parse_int_unsigned (format_uint n) n (format_uint-HasDigit n)
      (parse_digits-format_uint _ n (omega arith))
parse_int-format_int (negsuc n) h =
    unfold parse_int in rw (parse_digits-format_uint 9223372036854775808 (suc n) (omega arith))

digits_from-IsDigits :
    (fuel n : ℕ) (out : Str)
    → All (λ c. is_digit c ≡ true) out
    → All (λ c. is_digit c ≡ true) (digits_from fuel n out)
unfolding digits_from
digits_from-IsDigits zero n out h = h
digits_from-IsDigits (suc fuel) n out h =
    let digit : is_digit (b'0' + n % 10) ≡ true = ground arith in
    let more = digits_from-IsDigits fuel (n / 10) ((b'0' + n % 10) ∷ out) (digit, h) in
    elim (Bool-cases (ltb n 10)) [ inl small ↦ rw small (digit, h) | inr large ↦ rw large more ]

pub format_uint-IsDigits : (n : ℕ) → All (λ c. is_digit c ≡ true) (format_uint n)
unfolding format_uint
format_uint-IsDigits n = digits_from-IsDigits (suc n) n [] tt

pub format_uint-ne-nil : (n : ℕ) → format_uint n ≢ []
format_uint-ne-nil n e = rw e at (format_uint-HasDigit n)
