-- ===== src/Proxies/Ranges.antt =====
-- The addresses of a block.
use helloplanbuddy_cmd_plan.Base.{
  ℕ, zero, suc, ◌+◌, ◌-◌, ◌*◌, ◌/◌, ◌%◌, ◌^◌, ◌≤◌, ◌<◌, ◌≡◌, refl, sym, ap, ◌∙◌, ◌≢◌, ◌↔◌, Bool,
  true, false, ◌&&◌, Option, none, some, [], ◌∷◌, arith, ◌==◌, ==_iff, ==_refl, power_suc,
  power_positive,
}
use native.Mathlib.Nat.{div-div-eq-div-mul, mul-div_left, mul_assoc}
use helloplanbuddy_cmd_plan.Base.Text.{Text}
use helloplanbuddy_cmd_plan.Proxies.{
  word, and_bits, or_bits, mask, same_network, parse_prefix, normalize_ip, cidr_contains,
  ip_to_number, before_slash, after_slash, pack, whole, fourth, third, second, first, read_number,
  after_dot, Forwarded, validate_proxy, is_empty,
}

-- A mask of ones keeps the bits that it covers.
and_ones : (p x : ℕ) → x < 2 ^ p → and_bits p x (2 ^ p - 1) ≡ x
unfolding and_bits
and_ones zero x h = omega (arith, h)
and_ones (suc p) x h =
    let e = power_suc p in
    let q = power_positive p in
    let half : (2 ^ suc p - 1) / 2 ≡ 2 ^ p - 1 = omega (arith, e, q) in
    let odd : (2 ^ suc p - 1) % 2 ≡ 1 = omega (arith, e, q) in
    let ih = and_ones p (x / 2) (omega (arith, e, h)) in rw (half, odd, ih) (omega arith)

scaled : (a s : ℕ) → a * 2 ^ suc s ≡ a * 2 ^ s * 2
scaled a s = ap (λ t. a * t) (power_suc s) ∙ sym (mul_assoc a (2 ^ s) 2)

halved : (x s : ℕ) → x / 2 ^ suc s ≡ x / 2 / 2 ^ s
halved x s =
    let e : 2 ^ suc s ≡ 2 * 2 ^ s = grind arith in rw (e, div-div-eq-div-mul x 2 (2 ^ s)) refl

-- A mask of ones with zeros behind clears the bits of the zeros.
and_shifted :
    (s w p x : ℕ) → w ≡ s + p → x < 2 ^ w → and_bits w x ((2 ^ p - 1) * 2 ^ s) ≡ x / 2 ^ s * 2 ^ s
unfolding and_bits
and_shifted zero w p x e h =
    let same : w ≡ p = omega (arith, e) in
    let r = and_ones p x (rw same at h) in
    let one : (2 ^ p - 1) * 2 ^ 0 ≡ 2 ^ p - 1 = omega arith in rw (one, same, r) (omega arith)
and_shifted (suc s) zero p x e h = absurd (omega (arith, e))
and_shifted (suc s) (suc w) p x e h =
    let f = power_suc s in
    let ih = and_shifted s w p (x / 2) (omega (arith, e)) (omega (arith, power_suc w, h)) in
    let m : (2 ^ p - 1) * 2 ^ suc s ≡ (2 ^ p - 1) * 2 ^ s * 2 = scaled (2 ^ p - 1) s in
    let d : x / 2 ^ suc s ≡ x / 2 / 2 ^ s = halved x s in
    let r : x / 2 / 2 ^ s * 2 ^ suc s ≡ x / 2 / 2 ^ s * 2 ^ s * 2 = scaled (x / 2 / 2 ^ s) s in
    let half : (2 ^ p - 1) * 2 ^ s * 2 / 2 ≡ (2 ^ p - 1) * 2 ^ s = omega arith in
    let even : (2 ^ p - 1) * 2 ^ s * 2 % 2 ≡ 0 = omega arith in
    rw (m, d, half, even, ih, r) (omega arith)

-- A mask of every length, by evaluation.
all_masks : ℕ → Bool
all_masks zero = true
all_masks (suc p) = mask p == (2 ^ p - 1) * 2 ^ (32 - p) && all_masks p

masks_right : all_masks 33 ≡ true
unfolding all_masks mask
masks_right = refl

mask_of : (n p : ℕ) → all_masks n ≡ true → p < n → mask p ≡ (2 ^ p - 1) * 2 ^ (32 - p)
unfolding all_masks
mask_of zero p h lt = absurd (omega (arith, lt))
mask_of (suc n) p h lt = ground (arith, mask_of n p)

masked : (p x : ℕ) → p ≤ 32 → x < word → and_bits 32 x (mask p) ≡ x / 2 ^ (32 - p) * 2 ^ (32 - p)
masked p x le lt =
    rw (mask_of 33 p masks_right (omega (arith, le)))
      (and_shifted (32 - p) 32 p x (omega (arith, le)) lt)

cancelled : (a b s : ℕ) → a * 2 ^ s ≡ b * 2 ^ s → a ≡ b
cancelled a b s h =
    sym (mul-div_left a (power_positive s))
    ∙ (ap (λ t. t / 2 ^ s) h ∙ mul-div_left b (power_positive s))

same_network_iff :
    (p ip base : ℕ)
    → p ≤ 32
    → ip < word
    → base < word
    → (same_network p ip base ≡ true) ↔ (ip / 2 ^ (32 - p) ≡ base / 2 ^ (32 - p))
unfolding same_network
same_network_iff p ip base le i b =
    rw (masked p ip le i, masked p base le b)
      (
        λ h. cancelled (ip / 2 ^ (32 - p)) (base / 2 ^ (32 - p)) (32 - p) ((==_iff _ _).0 h),
        λ h. rw h (==_refl _),
      )

or_bits_lt : (bits a b : ℕ) → or_bits bits a b < 2 ^ bits
unfolding or_bits
or_bits_lt zero a b = omega arith
or_bits_lt (suc bits) a b = omega (arith, power_suc bits, or_bits_lt bits (a / 2) (b / 2))

whole_lt : (a b c : ℕ) (d : ℕ × Text) (n : ℕ) → whole a b c d ≡ some n → n < word
whole_lt a b c (d, []) n h = let e : pack a b c d ≡ n = cc in rw (sym e) (or_bits_lt 32 _ d)
whole_lt a b c (d, x ∷ t) n h = absurd (ground arith)

fourth_lt : (a b c : ℕ) (r : Option (ℕ × Text)) (n : ℕ) → fourth a b c r ≡ some n → n < word
fourth_lt a b c none n h = absurd (ground arith)
fourth_lt a b c (some d) n h = whole_lt a b c d n h

third_lt : (a b : ℕ) (r : Option (ℕ × Text)) (n : ℕ) → third a b r ≡ some n → n < word
third_lt a b none n h = absurd (ground arith)
third_lt a b (some c) n h = fourth_lt a b c.0 (after_dot c.1) n h

second_lt : (a : ℕ) (r : Option (ℕ × Text)) (n : ℕ) → second a r ≡ some n → n < word
second_lt a none n h = absurd (ground arith)
second_lt a (some b) n h = third_lt a b.0 (after_dot b.1) n h

first_lt : (r : Option (ℕ × Text)) (n : ℕ) → first r ≡ some n → n < word
first_lt none n h = absurd (ground arith)
first_lt (some a) n h = second_lt a.0 (after_dot a.1) n h

number_lt : (ip : Text) (n : ℕ) → ip_to_number ip ≡ some n → n < word
unfolding ip_to_number
number_lt ip n h = first_lt (read_number ip) n h

prefix_le : (t : Text) (p : ℕ) → parse_prefix t ≡ some p → p ≤ 32
unfolding parse_prefix
prefix_le [] p h = absurd (ground arith)
prefix_le (c ∷ t) p h = ground (arith, h)

filled : (t : Text) → t ≢ [] → is_empty t ≡ false
filled [] h = absurd (h refl)
filled (c ∷ t) h = refl

-- Of an IPv4 address and a block of IPv4 addresses whose prefix is read as p, at most 32, the address
-- is taken to be in the block exactly if it has the first p bits of the block's base.
pub cidr_contains_iff :
    (is_ip : Text → ℕ) (ip cidr prefix : Text) (n b p : ℕ)
    → is_ip (normalize_ip ip) ≡ 4
    → is_ip (normalize_ip (before_slash cidr)) ≡ 4
    → before_slash cidr ≢ []
    → prefix ≢ []
    → after_slash cidr ≡ some prefix
    → parse_prefix prefix ≡ some p
    → ip_to_number (normalize_ip ip) ≡ some n
    → ip_to_number (normalize_ip (before_slash cidr)) ≡ some b
    → (cidr_contains is_ip ip cidr ≡ true) ↔ (n / 2 ^ (32 - p) ≡ b / 2 ^ (32 - p))
unfolding cidr_contains
cidr_contains_iff is_ip ip cidr prefix n b p h4 b4 be pe sl pp hn hb =
    let s = same_network_iff p n b (prefix_le prefix p pp) (number_lt _ n hn) (number_lt _ b hb) in
    let e : is_empty (before_slash cidr) ≡ false = filled (before_slash cidr) be in
    let f : is_empty prefix ≡ false = filled prefix pe in rw (sl, e, f, h4, b4, hn, hb, pp) s

-- A source that is not trusted keeps the header X-Forwarded-Proto that it sends if it sends no
-- X-Forwarded-For beside it.
pub lone_proto_kept : (allowed : Bool) (h : Forwarded) → h.for ≡ [] → validate_proxy allowed h ≡ h
unfolding validate_proxy
lone_proto_kept allowed h e = rw e refl
