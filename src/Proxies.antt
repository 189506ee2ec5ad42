-- ===== src/Proxies.antt =====
-- proxyValidation.js: which proxies are trusted. Addresses are texts; `net.isIP`, which is not in the
-- repository, is a parameter. A 32-bit number keeps its wrap-around.
use helloplanbuddy_cmd_plan.Base.{
  ℕ, zero, suc, ◌+◌, ◌-◌, ◌*◌, ◌/◌, ◌%◌, ◌^◌, min, max, Bool, true, false, not, ◌&&◌, ◌||◌, Option,
  none, some, List, [], ◌∷◌, leb, ◌==◌, if◌then◌else◌, drop,
}
use helloplanbuddy_cmd_plan.Base.Text.{Text, text_eq, codes, starts_with, includes}
pub mod Ranges

abbrev pub word : ℕ
word = 4294967296

-- `ip.slice(7)` after the test for the prefix ::ffff:.
unfoldable pub normalize_ip : Text → Text
normalize_ip ip = if starts_with (codes "::ffff:") ip then drop 7 ip else ip

unfoldable pub is_digit : ℕ → Bool
is_digit c = leb 48 c && leb c 57

-- The digits at the start of a text, read in base ten after a value, and what follows them.
unfoldable pub read_digits : ℕ → Text → ℕ × Text
read_digits n [] = (n, [])
read_digits n (c ∷ t) =
    let rest = read_digits (n * 10 + (c - 48)) t in if is_digit c then rest else (n, c ∷ t)

-- `\d+` at the start of a text, as its number.
unfoldable pub read_number : Text → Option (ℕ × Text)
read_number [] = none
read_number (c ∷ t) = if is_digit c then some (read_digits 0 (c ∷ t)) else none

-- A dot, and then a number.
abbrev pub after_dot : Text → Option (ℕ × Text)
after_dot [] = none
after_dot (c ∷ t) = if c == 46 then read_number t else none

-- `x << k`, as the unsigned number that `>>> 0` makes of it.
abbrev pub shift_left : ℕ → ℕ → ℕ
shift_left x k = x * 2 ^ k % word

-- `a & b` and `a | b`, on a number of bits.
unfoldable pub and_bits : ℕ → ℕ → ℕ → ℕ
and_bits zero a b = 0
and_bits (suc bits) a b = and_bits bits (a / 2) (b / 2) * 2 + min (a % 2) (b % 2)

unfoldable pub or_bits : ℕ → ℕ → ℕ → ℕ
or_bits zero a b = 0
or_bits (suc bits) a b = or_bits bits (a / 2) (b / 2) * 2 + max (a % 2) (b % 2)

abbrev pub pack : ℕ → ℕ → ℕ → ℕ → ℕ
pack a b c d =
    or_bits 32 (or_bits 32 (or_bits 32 (shift_left a 24) (shift_left b 16)) (shift_left c 8)) d

abbrev pub whole : ℕ → ℕ → ℕ → ℕ × Text → Option ℕ
whole a b c (d, []) = some (pack a b c d)
whole a b c (d, x ∷ t) = none

-- The parts of the pattern, from the last one to the first.
abbrev pub fourth : ℕ → ℕ → ℕ → Option (ℕ × Text) → Option ℕ
fourth a b c none = none
fourth a b c (some d) = whole a b c d

abbrev pub third : ℕ → ℕ → Option (ℕ × Text) → Option ℕ
third a b none = none
third a b (some c) = fourth a b c.0 (after_dot c.1)

abbrev pub second : ℕ → Option (ℕ × Text) → Option ℕ
second a none = none
second a (some b) = third a b.0 (after_dot b.1)

abbrev pub first : Option (ℕ × Text) → Option ℕ
first none = none
first (some a) = second a.0 (after_dot a.1)

-- `ipToNumber`
unfoldable pub ip_to_number : Text → Option ℕ
ip_to_number ip = first (read_number ip)

-- The parts of `cidr.split('/')` that are named: the text before the first slash, and the text up to
-- the second one, if there is a slash.
unfoldable pub before_slash : Text → Text
before_slash [] = []
before_slash (c ∷ t) = let rest = before_slash t in if c == 47 then [] else c ∷ rest

unfoldable pub after_slash : Text → Option Text
after_slash [] = none
after_slash (c ∷ t) = let rest = after_slash t in if c == 47 then some (before_slash t) else rest

-- A prefix between 0 and 32, as `parseInt` reads it, if it is one. White space in front of it is taken
-- to be absent.
abbrev pub up_to_32 : Option (ℕ × Text) → Option ℕ
up_to_32 none = none
up_to_32 (some n) = if leb n.0 32 then some n.0 else none

-- A negative number is refused, but -0 is 0.
abbrev pub only_zero : Option (ℕ × Text) → Option ℕ
only_zero none = none
only_zero (some n) = if n.0 == 0 then some 0 else none

unfoldable pub parse_prefix : Text → Option ℕ
parse_prefix [] = none
parse_prefix (c ∷ t) =
    if c == 43
    then up_to_32 (read_number t)
    else (if c == 45 then only_zero (read_number t) else up_to_32 (read_number (c ∷ t)))

-- `(0xffffffff << (32 - prefixLen)) >>> 0`
unfoldable pub mask : ℕ → ℕ
mask prefix_len = if prefix_len == 0 then 0 else shift_left (word - 1) (32 - prefix_len)

-- The end of `cidrContains`.
unfoldable pub same_network : ℕ → ℕ → ℕ → Bool
same_network prefix_len ip base =
    and_bits 32 ip (mask prefix_len) == and_bits 32 base (mask prefix_len)

abbrev pub is_empty : Text → Bool
is_empty [] = true
is_empty (c ∷ t) = false

abbrev pub numbers_match : Option ℕ → Option ℕ → Option ℕ → Bool
numbers_match none base prefix_len = false
numbers_match (some ip) none prefix_len = false
numbers_match (some ip) (some base) none = false
numbers_match (some ip) (some base) (some prefix_len) = same_network prefix_len ip base

-- `net.isIP`
module _ (is_ip : Text → ℕ) where
  abbrev pub in_block : Text → Text → Option Text → Bool
  in_block ip base none = false
  in_block ip base (some prefix) =
      not (is_empty base || is_empty prefix)
      && (is_ip (normalize_ip ip) == 4
          && (is_ip (normalize_ip base) == 4
              && numbers_match (ip_to_number (normalize_ip ip)) (ip_to_number (normalize_ip base))
                  (parse_prefix prefix)))

  -- `cidrContains`
  unfoldable pub cidr_contains : Text → Text → Bool
  cidr_contains ip cidr = in_block ip (before_slash cidr) (after_slash cidr)

  unfoldable pub any_entry : Text → List Text → Bool
  any_entry ip [] = false
  any_entry ip (entry ∷ allowed) =
      let e = normalize_ip entry in
      text_eq e ip || (includes (codes "/") e && cidr_contains ip e || any_entry ip allowed)

  -- `isAllowedProxy`, with the list of `getKnownProxyIPs`.
  unfoldable pub is_allowed_proxy : List Text → Text → Bool
  is_allowed_proxy allowed source =
      let ip = normalize_ip source in not (is_empty ip || is_ip ip == 0) && any_entry ip allowed

-- The headers of a request that tell of its way; a header that is missing is empty.
pub record Forwarded : Type 0 where
  pub for : Text
  pub proto : Text
  pub host : Text

-- `middleware`, given whether the source is an allowed proxy.
unfoldable pub validate_proxy : Bool → Forwarded → Forwarded
validate_proxy allowed h =
    if is_empty h.for || allowed then h else record { for = []; proto = []; host = [] }
