-- ===== src/Sharding/Text.antt =====
-- What internal/sharding uses of the standard library on strings: `strconv.Itoa` and `sort.Strings`.
use Prim.Native.String.{compare, ◌++◌}
use Prim.Native.Nat.{Ordering}
use metrics_governor.Prelude.{
  ℕ, zero, suc, ◌/◌, ◌%◌, Bool, true, false, List, [], ◌∷◌, String, ltb, ◌==◌, if◌then◌else◌, ◌≡◌,
  refl,
}

unfoldable pub digit : ℕ → String
digit d =
    if d == 0
    then "0"
    else if d == 1
    then "1"
    else if d == 2
    then "2"
    else if d == 3
    then "3"
    else if d == 4
    then "4"
    else if d == 5
    then "5"
    else if d == 6
    then "6"
    else if d == 7
    then "7"
    else if d == 8
    then "8"
    else "9"

unfoldable pub digits_of : ℕ → ℕ → String
digits_of zero n = ""
digits_of (suc fuel) n =
    let rest = digits_of fuel (n / 10) in if ltb n 10 then digit n else rest ++ digit (n % 10)

-- `strconv.Itoa` of a number that is not negative. A number has fewer digits than its successor.
unfoldable pub itoa : ℕ → String
unfolding digits_of digit
itoa n = digits_of (suc n) n

-- Strings are ordered byte by byte, which for UTF-8 is code point by code point.
abbrev pub str_leb : String → String → Bool
str_leb s t = elim (compare s t) [ Ordering.gt ↦ false | _ ↦ true ]

unfoldable pub insert_string : String → List String → List String
insert_string s [] = s ∷ []
insert_string s (t ∷ ts) = if str_leb s t then s ∷ t ∷ ts else t ∷ insert_string s ts

-- `sort.Strings`
unfoldable pub sort_strings : List String → List String
sort_strings [] = []
sort_strings (s ∷ ss) = insert_string s (sort_strings ss)

itoa_runs : itoa 1095 ≡ "1095"
unfolding itoa
itoa_runs = refl
