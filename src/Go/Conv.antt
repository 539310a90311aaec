-- ===== src/Go/Conv.antt =====
-- Package strconv: numbers in decimal texts. A result with an error is `none`.
pub mod Laws
use always_cache.Base.{
  ℕ, zero, suc, ◌+◌, ◌-◌, ◌*◌, ◌/◌, ◌%◌, ◌&&◌, [], ◌∷◌, Option, none, some, ltb, leb, ◌==◌,
  if◌then◌else◌,
}
use always_cache.Base.Int.{ℤ, pos, negsuc}
use always_cache.Go.Strings.{Str, is_digit}

-- The loop of ParseUint behind the number `acc`, refusing what is above `max`.
parse_from : ℕ → ℕ → Str → Option ℕ
parse_from max acc [] = some acc
parse_from max acc (c ∷ s) =
    let next = acc * 10 + (c - b'0') in
    let rest = parse_from max next s in if is_digit c && leb next max then rest else none

parse_digits : ℕ → Str → Option ℕ
unfolding parse_from
parse_digits max [] = none
parse_digits max (c ∷ s) = parse_from max 0 (c ∷ s)

abbrev pub max_uint64 : ℕ
max_uint64 = 18446744073709551615

-- strconv.ParseUint(s, 10, 64)
unfoldable pub parse_uint : Str → Option ℕ
unfolding parse_digits
parse_uint s = parse_digits max_uint64 s

abbrev negated : Option ℕ → Option ℤ
negated none = none
negated (some zero) = some (pos 0)
negated (some (suc n)) = some (negsuc n)

abbrev positive : Option ℕ → Option ℤ
positive none = none
positive (some n) = some (pos n)

-- strconv.ParseInt(s, 10, 64), and strconv.Atoi, which is the same function here.
unfoldable pub parse_int : Str → Option ℤ
unfolding parse_digits
parse_int [] = none
parse_int (c ∷ s) =
    if c == b'-'
    then negated (parse_digits 9223372036854775808 s)
    else if c == b'+'
    then positive (parse_digits 9223372036854775807 s)
    else positive (parse_digits 9223372036854775807 (c ∷ s))

-- The digits of `n` before `out`, in at most `fuel` rounds.
digits_from : ℕ → ℕ → Str → Str
digits_from zero n out = out
digits_from (suc fuel) n out =
    let last = (b'0' + n % 10) ∷ out in
    let more = digits_from fuel (n / 10) last in if ltb n 10 then last else more

-- strconv.FormatUint(n, 10); a number has fewer digits than `n + 1`.
unfoldable pub format_uint : ℕ → Str
unfolding digits_from
format_uint n = digits_from (suc n) n []

-- strconv.FormatInt(z, 10), and `%d`.
unfoldable pub format_int : ℤ → Str
unfolding format_uint
format_int (pos n) = format_uint n
format_int (negsuc n) = b'-' ∷ format_uint (suc n)
