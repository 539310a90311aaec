-- ===== src/CacheUpdate/Laws.antt =====
-- What is read of a Cache-Update field with a delay.
use always_cache.Base.{
  ℕ, ◌*◌, Bool, true, false, [], ◌∷◌, ◌++◌, none, some, ◌≡◌, ◌≢◌, refl, ◌∙◌, arith, All, map,
}
use always_cache.Base.Int.{pos, max_int64, ◌*ℤ◌, wrap64_fits, ◌≤ℤ◌}
use always_cache.Go.Strings.{Str, codes, is_digit, lower, to_lower, strip_prefix, split_first}
use always_cache.Go.Strings.Laws.{Lacks, cut-append, cut_absent}
use always_cache.Go.Conv.{format_uint, format_int}
use always_cache.Go.Conv.Laws.{parse_int-format_int, format_uint-IsDigits, format_uint-ne-nil}
use always_cache.Go.Time.{nanos, times_second}
use always_cache.Go.Http.{Platform, Url}
use always_cache.CacheUpdate.{
  is_word, nonempty, take_digits, delay_here, find_delay, get_delay, get_url_path, cache_update,
}

abbrev semicolon : Str
semicolon = codes ";"

-- Neither a byte of the path nor the semicolon behind it can be the equals sign of `delay=`.
strip_prefix_path :
    (name path rest : Str)
    → Lacks b';' name
    → Lacks b'=' path
    → strip_prefix (name ++ b'=' ∷ []) (to_lower (path ++ b';' ∷ rest)) ≡ none
unfolding strip_prefix to_lower lower
strip_prefix_path [] [] rest h k = refl
strip_prefix_path [] (c ∷ path) rest h k = ground arith
strip_prefix_path (a ∷ name) [] rest h k = ground arith
strip_prefix_path (a ∷ name) (c ∷ path) rest h k =
    ground (arith, strip_prefix_path name path rest h.1 k.1)

delay_name-Lacks : Lacks b';' (codes "delay")
delay_name-Lacks = omega arith

delay_here_path :
    (c : ℕ) (path rest : Str)
    → Lacks b'=' (c ∷ path)
    → delay_here ((c ∷ path) ++ b';' ∷ rest) ≡ none
unfolding delay_here
delay_here_path c path rest k =
    rw (strip_prefix_path (codes "delay") (c ∷ path) rest delay_name-Lacks k) refl

find_delay_skip :
    (after_word : Bool) (c : ℕ) (s : Str)
    → delay_here (c ∷ s) ≡ none
    → find_delay after_word (c ∷ s) ≡ find_delay (is_word c) s
unfolding find_delay
find_delay_skip true c s e = refl
find_delay_skip false c s e = rw (find_delay, e) refl

find_delay_path :
    (after_word : Bool) (path rest : Str)
    → Lacks b'=' path
    → find_delay after_word (path ++ b';' ∷ rest) ≡ find_delay false rest
unfolding find_delay delay_here strip_prefix to_lower lower
find_delay_path true [] rest k = refl
find_delay_path false [] rest k = refl
find_delay_path after_word (c ∷ path) rest (n, k) =
    find_delay_skip after_word c (path ++ b';' ∷ rest) (delay_here_path c path rest (n, k))
    ∙ find_delay_path (is_word c) path rest k

abbrev IsDigits : Str → Type 0
IsDigits = All (λ c. is_digit c ≡ true)

lower-IsDigits : (s : Str) → IsDigits s → map lower s ≡ s
unfolding lower
lower-IsDigits [] h = refl
lower-IsDigits (c ∷ s) h = ground (arith, lower-IsDigits s)

take_digits-IsDigits : (s : Str) → IsDigits s → take_digits s ≡ s
unfolding take_digits
take_digits-IsDigits [] h = refl
take_digits-IsDigits (c ∷ s) h = ground (arith, take_digits-IsDigits s)

nonempty-some : (s : Str) → s ≢ [] → nonempty s ≡ some s
nonempty-some [] n = absurd (n refl)
nonempty-some (c ∷ s) n = refl

delay_here_digits :
    (digits : Str)
    → IsDigits digits
    → digits ≢ []
    → delay_here (codes "delay=" ++ digits) ≡ some digits
unfolding delay_here strip_prefix to_lower lower
delay_here_digits digits h n =
    rw (lower-IsDigits digits h, take_digits-IsDigits digits h) (nonempty-some digits n)

find_delay_found :
    (c : ℕ) (s digits : Str)
    → delay_here (c ∷ s) ≡ some digits
    → find_delay false (c ∷ s) ≡ some digits
unfolding find_delay
find_delay_found c s digits e = rw (find_delay, e) refl

find_delay_here :
    (digits : Str)
    → IsDigits digits
    → digits ≢ []
    → find_delay false (codes " delay=" ++ digits) ≡ some digits
unfolding delay_here strip_prefix to_lower lower
find_delay_here digits h n =
    find_delay_skip false b' ' (codes "delay=" ++ digits) refl
    ∙ find_delay_found b'd' (codes "elay=" ++ digits) digits (delay_here_digits digits h n)

split_first-append : (b : ℕ) (s rest : Str) → Lacks b s → split_first (s ++ b ∷ rest) (b ∷ []) ≡ s
unfolding split_first
split_first-append b s rest h = rw (split_first, cut-append b s rest h) refl

split_first_absent : (b : ℕ) (s : Str) → Lacks b s → split_first s (b ∷ []) ≡ s
unfolding split_first
split_first_absent b s h = rw (split_first, cut_absent b s h) refl

times_pos : (m n : ℕ) → pos m *ℤ pos n ≡ pos (m * n)
unfolding ◌*ℤ◌
times_pos m n = ground arith

delay_seconds : (n : ℕ) → pos (n * nanos) ≤ℤ max_int64 → times_second (pos n) ≡ pos (n * nanos)
unfolding times_second
delay_seconds n h =
    rw
      (
        wrap64_fits (pos n) (omega arith, omega arith),
        times_pos n nanos,
        wrap64_fits (pos (n * nanos)) (omega arith, h),
      )
      refl

module _ (path : Str) (n : ℕ) (url : Url) where
  -- The value of a field that asks for an update of the path in so many seconds.
  abbrev pub update_value : Str
  update_value = path ++ (codes "; delay=" ++ format_uint n)

  pub get_delay-update_value :
      Lacks b'=' path → pos (n * nanos) ≤ℤ max_int64 → get_delay update_value ≡ pos (n * nanos)
  unfolding get_delay format_int
  get_delay-update_value k h =
      let digits =
        find_delay_path false path (codes " delay=" ++ format_uint n) k
        ∙ find_delay_here (format_uint n) (format_uint-IsDigits n) (format_uint-ne-nil n) in
      let number = parse_int-format_int (pos n) (omega arith, omega arith) in
      rw (get_delay, digits, number) (delay_seconds n h)

  -- A Cache-Update value of the form `path; delay=n`, for a path without a semicolon and an equals
  -- sign and a number of seconds that fits a duration, asks for an update of the resolved path in n
  -- seconds.
  pub cache_update-update_value :
      (platform : Platform)
      → Lacks b'=' path
      → Lacks b';' path
      → pos (n * nanos) ≤ℤ max_int64
      → cache_update platform url update_value
        ≡ record { path = platform.resolve_path url path; delay = pos (n * nanos) }
  unfolding cache_update get_url_path
  cache_update-update_value platform k l h =
      let first : split_first update_value (codes ";") ≡ path =
        split_first-append b';' path (codes " delay=" ++ format_uint n) l in
      let again : split_first path (codes ";") ≡ path = split_first_absent b';' path l in
      rw (get_delay-update_value k h, first, get_url_path, again) refl
