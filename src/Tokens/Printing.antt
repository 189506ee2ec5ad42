-- ===== src/Tokens/Printing.antt =====
-- Durations that were printed are read back.
use helloplanbuddy_cmd_plan.Base.{
  ℕ, ◌+◌, ◌-◌, ◌*◌, ◌^◌, ◌≤◌, ◌<◌, ◌≡◌, refl, ◌≢◌, ◌⊎◌, inl, true, some, List, [], ◌∷◌, ◌++◌, map,
  arith, All,
}
use helloplanbuddy_cmd_plan.Base.Text.{Text}
use helloplanbuddy_cmd_plan.Tokens.Durations.{
  TimeUnit, ms, s, m, h, d, is_digit, parse_unit, read_digits, seconds, parse_text, text,
  parse_duration_to_seconds,
}

-- The value of decimal digits, each below 10, after a number.
unfoldable pub value_of : ℕ → List ℕ → ℕ
value_of n [] = n
value_of n (x ∷ xs) = value_of (n * 10 + x) xs

abbrev pub print_digits : List ℕ → Text
print_digits = map (λ x. 48 + x)

abbrev pub print_unit : TimeUnit → Text
print_unit ms = 109 ∷ 115 ∷ []
print_unit s = 115 ∷ []
print_unit m = 109 ∷ []
print_unit h = 104 ∷ []
print_unit d = 100 ∷ []

read_unit : (n : ℕ) (unit : TimeUnit) → read_digits n (print_unit unit) ≡ (n, print_unit unit)
unfolding read_digits
read_unit n ms = refl
read_unit n s = refl
read_unit n m = refl
read_unit n h = refl
read_unit n d = refl

read_printed :
    (n : ℕ) (xs : List ℕ) (unit : TimeUnit)
    → All (λ x. x < 10) xs
    → read_digits n (print_digits xs ++ print_unit unit) ≡ (value_of n xs, print_unit unit)
unfolding read_digits value_of
read_printed n [] unit b = read_unit n unit
read_printed n (x ∷ xs) unit b =
    let digit : is_digit (48 + x) ≡ true = ground arith in
    let value : 48 + x - 48 ≡ x = omega arith in
    rw (digit, value) (read_printed (n * 10 + x) xs unit b.1)

parse_printed : (unit : TimeUnit) → parse_unit (print_unit unit) ≡ some unit
unfolding parse_unit
parse_printed ms = refl
parse_printed s = refl
parse_printed m = refl
parse_printed h = refl
parse_printed d = refl

abbrev pub milliseconds : TimeUnit → ℕ
milliseconds ms = 1
milliseconds s = 1000
milliseconds m = 60000
milliseconds h = 3600000
milliseconds d = 86400000

-- The seconds are at least one and the least that are not below the duration; whole seconds are exact.
seconds_right :
    (n : ℕ) (unit : TimeUnit)
    → (n * milliseconds unit ≤ seconds n unit * 1000)
      × ((seconds n unit * 1000 < n * milliseconds unit + 1000) ⊎ (seconds n unit ≡ 1))
      × (unit ≢ ms → seconds n unit * 1000 ≡ n * milliseconds unit)
seconds_right n ms = (omega arith, ground arith, λ e. absurd (e refl))
seconds_right n s = (omega arith, inl (omega arith), λ e. omega arith)
seconds_right n m = (omega arith, inl (omega arith), λ e. omega arith)
seconds_right n h = (omega arith, inl (omega arith), λ e. omega arith)
seconds_right n d = (omega arith, inl (omega arith), λ e. omega arith)

-- A duration that is written as decimal digits and a unit, of at most 2 ^ 53 milliseconds, is read as
-- the least number of seconds, or one, that is not shorter than it; seconds, minutes, hours and days
-- are read exactly.
pub duration_round_trip :
    (x : ℕ) (xs : List ℕ) (unit : TimeUnit)
    → All (λ y. y < 10) (x ∷ xs)
    → value_of 0 (x ∷ xs) * milliseconds unit ≤ 2 ^ 53
    → let r = parse_duration_to_seconds (text (print_digits (x ∷ xs) ++ print_unit unit)) in
      let t = value_of 0 (x ∷ xs) * milliseconds unit in
      (t ≤ r * 1000) × ((r * 1000 < t + 1000) ⊎ (r ≡ 1)) × (unit ≢ ms → r * 1000 ≡ t)
unfolding parse_duration_to_seconds parse_text
duration_round_trip x xs unit b small =
    let digit : is_digit (48 + x) ≡ true = ground arith in
    rw (digit, read_printed 0 (x ∷ xs) unit b, parse_printed unit)
      (seconds_right (value_of 0 (x ∷ xs)) unit)
