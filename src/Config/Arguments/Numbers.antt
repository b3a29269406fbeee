-- ===== src/Config/Arguments/Numbers.antt =====
-- Rust's `str::parse::<i64>` and `str::parse::<f64>`: which texts they take.
use Prim.Native.Char.{Char, code}
use Prim.Native.String.{String, [], ◌∷◌}
use mcp_gatehound.Base.{
  ℕ, ◌+◌, ◌-◌, ◌*◌, ◌^◌, Option, none, some, Bool, true, false, not, ◌&&◌, ◌||◌, leb, eqb, is_digit,
  is_empty, all_chars, if◌then◌else◌,
}

abbrev pub digits_value : ℕ → String → ℕ
digits_value acc [] = acc
digits_value acc (c ∷ s) = digits_value (acc * 10 + (code c - b'0')) s

-- One digit at least, and the value within a bound.
abbrev pub is_number_up_to : ℕ → String → Bool
is_number_up_to most s = not (is_empty s) && (all_chars is_digit s && leb (digits_value 0 s) most)

-- `str::parse` for an unsigned type, by the greatest value of the type
abbrev pub parse_unsigned : ℕ → String → Option ℕ
parse_unsigned most [] = none
parse_unsigned most (c ∷ s) =
    if eqb (code c) b'+'
    then if is_number_up_to most s then some (digits_value 0 s) else none
    else if is_number_up_to most (c ∷ s)
    then some (digits_value 0 (c ∷ s))
    else none

unfoldable pub parses_i64 : String → Bool
parses_i64 [] = false
parses_i64 (c ∷ s) =
    if eqb (code c) b'-'
    then is_number_up_to (2 ^ 63) s
    else if eqb (code c) b'+'
    then is_number_up_to (2 ^ 63 - 1) s
    else is_number_up_to (2 ^ 63 - 1) (c ∷ s)

abbrev lower : Char → ℕ
lower c = if leb b'A' (code c) && leb (code c) b'Z' then code c + 32 else code c

-- The two texts without regard to ASCII case; the second is given in lower case.
abbrev same_word : String → String → Bool
same_word [] [] = true
same_word (c ∷ s) (d ∷ t) = eqb (lower c) (code d) && same_word s t
same_word _ _ = false

abbrev is_sign : Char → Bool
is_sign c = eqb (code c) b'+' || eqb (code c) b'-'

abbrev unsigned_digits : String → Bool
unsigned_digits s = not (is_empty s) && all_chars is_digit s

-- What follows `e`: a sign at most, and digits.
abbrev is_exponent : String → Bool
is_exponent [] = false
is_exponent (c ∷ s) = if is_sign c then unsigned_digits s else unsigned_digits (c ∷ s)

-- The rest of a number, with whether a digit and whether the point has been read.
abbrev number_from : Bool → Bool → String → Bool
number_from digit point [] = digit
number_from digit point (c ∷ s) =
    let on = number_from (digit || is_digit c) (point || eqb (code c) b'.') s in
    if is_digit c
    then on
    else if eqb (code c) b'.' && not point
    then on
    else if eqb (lower c) b'e' && digit
    then is_exponent s
    else false

abbrev is_magnitude : String → Bool
is_magnitude s =
    same_word s "inf"
    || (same_word s "infinity" || (same_word s "nan" || number_from false false s))

unfoldable pub parses_f64 : String → Bool
parses_f64 [] = false
parses_f64 (c ∷ s) = if is_sign c then is_magnitude s else is_magnitude (c ∷ s)
