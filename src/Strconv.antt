-- ===== src/Strconv.antt =====
-- Go's strconv as the program uses it: `ParseInt(s, 10, 64)`, which is `Atoi` on a 64-bit platform.
pub mod RoundTrip
use jira_connector.Base.{
  ℕ, ◌+◌, ◌-◌, ◌*◌, ◌^◌, ◌≡◌, refl, String, Bool, true, false, ◌&&◌, Option, none, some, List, [],
  ◌∷◌, arith, leb, ◌==◌, if◌then◌else◌,
}
use jira_connector.Base.Int.{ℤ, pos, negsuc, IsInt64}
use jira_connector.Base.Text.{codes}

abbrev max_uint64 : ℕ
max_uint64 = 2 ^ 64 - 1

-- The value of a run of decimal digits; `none` at any other character, unless the value has left
-- the range of uint64 before that.
digits_value : ℕ → List ℕ → Option ℕ
digits_value n [] = some n
digits_value n (c ∷ cs) =
    let n' = n * 10 + (c - 48) in
    let rest = digits_value n' cs in
    if leb 48 c && leb c 57 then if leb n' max_uint64 then rest else some max_uint64 else none

-- What ParseInt returns: its value and whether its error is nil.
pub record Parsed : Type 0 where
  pub value : ℤ
  pub fine : Bool

abbrev max_int64 : ℕ
max_int64 = 2 ^ 63 - 1

abbrev syntax_error : Parsed
syntax_error = record { value = pos 0; fine = false }

negated : ℕ → ℤ
negated n = if n == 0 then pos 0 else negsuc (n - 1)

-- Out of range the value is the nearest int64, with an error.
in_range : Bool → Option ℕ → Parsed
unfolding negated
in_range negative none = syntax_error
in_range false (some n) =
    if leb n max_int64
    then record { value = pos n; fine = true }
    else record { value = pos max_int64; fine = false }
in_range true (some n) =
    if leb n (2 ^ 63)
    then record { value = negated n; fine = true }
    else record { value = negsuc max_int64; fine = false }

unsigned : Bool → List ℕ → Parsed
unfolding in_range digits_value
unsigned negative [] = syntax_error
unsigned negative (c ∷ cs) = in_range negative (digits_value 0 (c ∷ cs))

signed : List ℕ → Parsed
unfolding unsigned
signed [] = syntax_error
signed (c ∷ cs) =
    if c == b'-'
    then unsigned true cs
    else if c == b'+'
    then unsigned false cs
    else unsigned false (c ∷ cs)

unfoldable pub parse_int : String → Parsed
unfolding signed
parse_int s = signed (codes s)

in_range-IsInt64 : (negative : Bool) (o : Option ℕ) → IsInt64 (in_range negative o).value
unfolding in_range
in_range-IsInt64 true none = ground arith
in_range-IsInt64 false none = ground arith
in_range-IsInt64 true (some n) = ground arith
in_range-IsInt64 false (some n) = ground arith

unsigned-IsInt64 : (negative : Bool) (cs : List ℕ) → IsInt64 (unsigned negative cs).value
unfolding unsigned
unsigned-IsInt64 negative [] = ground arith
unsigned-IsInt64 negative (c ∷ cs) = in_range-IsInt64 negative (digits_value 0 (c ∷ cs))

signed-IsInt64 : (cs : List ℕ) → IsInt64 (signed cs).value
unfolding signed
signed-IsInt64 [] = ground arith
signed-IsInt64 (c ∷ cs) =
    ground
      (arith, unsigned-IsInt64 true cs, unsigned-IsInt64 false cs, unsigned-IsInt64 false (c ∷ cs))

-- Whatever the text, the value fits an int64.
pub parse_int-IsInt64 : (s : String) → IsInt64 (parse_int s).value
unfolding parse_int
parse_int-IsInt64 s = signed-IsInt64 (codes s)

parse_int_test : parse_int "-1050" ≡ record { value = negsuc 1049; fine = true }
unfolding parse_int
parse_int_test = refl

parse_int_error : parse_int "10x" ≡ record { value = pos 0; fine = false }
unfolding parse_int
parse_int_error = refl
