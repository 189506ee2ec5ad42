-- ===== src/Tokens/Durations.antt =====
-- jwt.js: `parseDurationToSeconds`, on a text that is trimmed and in lower case. Numbers are exact, as
-- those of the source are up to 2 ^ 53.
use helloplanbuddy_cmd_plan.Base.{
  ℕ, ◌+◌, ◌-◌, ◌*◌, ◌/◌, max, Bool, false, ◌&&◌, Option, none, some, [], ◌∷◌, leb, ◌==◌,
  if◌then◌else◌,
}
use helloplanbuddy_cmd_plan.Base.Text.{Text}

pub data TimeUnit : Type 0 where
  ms s m h d : TimeUnit

abbrev pub is_digit : ℕ → Bool
is_digit c = leb 48 c && leb c 57

-- `(ms|s|m|h|d)?$`: what may follow the digits. No unit is seconds.
unfoldable pub parse_unit : Text → Option TimeUnit
parse_unit [] = some s
parse_unit (c ∷ []) =
    if c == 115
    then some s
    else (if c == 109
        then some m
        else (if c == 104 then some h else (if c == 100 then some d else none)))
parse_unit (c ∷ e ∷ []) = if c == 109 && e == 115 then some ms else none
parse_unit (c ∷ e ∷ g ∷ rest) = none

-- `^(\d+)`, from the value read so far: the number and the rest of the text.
unfoldable pub read_digits : ℕ → Text → ℕ × Text
read_digits n [] = (n, [])
read_digits n (c ∷ t) =
    let rest = read_digits (n * 10 + (c - 48)) t in if is_digit c then rest else (n, c ∷ t)

abbrev pub starts_with_digit : Text → Bool
starts_with_digit [] = false
starts_with_digit (c ∷ t) = is_digit c

abbrev pub seconds : ℕ → TimeUnit → ℕ
seconds amount ms = max 1 ((amount + 999) / 1000)
seconds amount s = amount
seconds amount m = amount * 60
seconds amount h = amount * 60 * 60
seconds amount d = amount * 24 * 60 * 60

abbrev pub seconds_or_default : ℕ → Option TimeUnit → ℕ
seconds_or_default amount none = 3600
seconds_or_default amount (some unit) = seconds amount unit

unfoldable pub parse_text : Text → ℕ
parse_text t =
    if starts_with_digit t
    then seconds_or_default (read_digits 0 t).0 (parse_unit (read_digits 0 t).1)
    else 3600

-- A value of the configuration: a number, by its whole part, a text, or something else.
pub data Value : Type 0 where
  number : ℕ → Value
  text : Text → Value
  other : Value

-- `parseDurationToSeconds`
unfoldable pub parse_duration_to_seconds : Value → ℕ
parse_duration_to_seconds (number n) = max 1 n
parse_duration_to_seconds (text t) = parse_text t
parse_duration_to_seconds other = 3600
