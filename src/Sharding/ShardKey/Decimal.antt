-- ===== src/Sharding/ShardKey/Decimal.antt =====
-- intToString of internal/sharding/shardkey.go beside `strconv.Itoa`.
use Prim.Native.String.{◌++◌ as str_append}
use text.Mathlib.TextLemmas.{append-nil, append_assoc}
use metrics_governor.Prelude.{
  ℕ, zero, suc, ◌-◌, ◌*◌, ◌/◌, ◌%◌, ◌^◌, ◌<◌, ◌≡◌, refl, sym, ap, ◌∙◌, String, ltb, if◌then◌else◌,
  arith,
}
use metrics_governor.Sharding.Text.{digit, digits_of, itoa}
use metrics_governor.Sharding.ShardKey.{decimal, int_to_string}

decimal_done : (k : ℕ) (w : String) → decimal k 0 w ≡ w
unfolding decimal
decimal_done zero w = refl
decimal_done (suc k) w = refl

ten_times : (k : ℕ) → 10 ^ suc k ≡ 10 * 10 ^ k
ten_times k = omega arith

decimal-digits_of :
    (k f i : ℕ) (w : String)
    → 0 < i
    → i < 10 ^ k
    → i < f
    → decimal k i w ≡ str_append (digits_of f i) w
unfolding decimal digits_of
decimal-digits_of zero f i w p h l = absurd (omega arith)
decimal-digits_of (suc k) zero i w p h l = absurd (omega arith)
decimal-digits_of (suc k) (suc f) i w p h l =
    let t = ten_times k in
    ground (
      arith,
      t,
      decimal_done k (str_append (digit i) w),
      decimal-digits_of k f (i / 10) (str_append (digit (i % 10)) w),
      append_assoc (digits_of f (i / 10)) (digit (i % 10)) w,
    )

-- `fmt.Sprintf("%d", i)` of the two's complement of an int64.
abbrev pub sprint_int : ℕ → String
sprint_int i = if ltb i (2 ^ 63) then itoa i else str_append "-" (itoa (2 ^ 64 - i))

decimal-itoa : (i : ℕ) → 0 < i → i < 10 ^ 19 → decimal 19 i "" ≡ itoa i
unfolding itoa
decimal-itoa i p h =
    decimal-digits_of 19 (suc i) i "" p h (omega arith) ∙ append-nil (digits_of (suc i) i)

itoa_zero : itoa 0 ≡ "0"
unfolding itoa digits_of digit
itoa_zero = refl

smallest : decimal 19 (2 ^ 63) "" ≡ "9223372036854775808"
unfolding decimal digit
smallest = refl

smallest_itoa : itoa (2 ^ 63) ≡ "9223372036854775808"
smallest_itoa = sym (decimal-itoa (2 ^ 63) (omega arith) (omega arith)) ∙ smallest

-- On every int64, the smallest included, intToString writes the number in base ten without leading zeros,
-- with a sign where it is negative, as strconv.Itoa does.
pub int_to_string-sprint_int : (i : ℕ) → i < 2 ^ 64 → int_to_string i ≡ sprint_int i
unfolding int_to_string
int_to_string-sprint_int i h = ground (
  arith,
  itoa_zero,
  ap (str_append "-") (smallest_itoa),
  decimal-itoa i,
  decimal-itoa (2 ^ 64 - i),
)
