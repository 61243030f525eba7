-- ===== src/Base/Text.antt =====
-- Go strings as native texts: equality, the empty text, code points, decimal numbers.
use Prim.Native.Nat.{ℕ, zero, suc, ◌/◌, ◌%◌}
use Prim.Native.Char.{code}
pub use Prim.Native.String.{String}
use mathlib.Core.Path.{◌≡◌, refl}
use mathlib.Core.Bool.{Bool, true, false}
use mathlib.Core.List.{List, [], ◌∷◌}
use jira_connector.Base.Tests.{ltb, ◌==◌, if◌then◌else◌}
use jira_connector.Base.Int.{ℤ, pos, negsuc}
pub use text.Mathlib.Text.{◌==◌ as str_eq}
pub use text.Mathlib.TextEquality.{eq_iff}
pub use text.Mathlib.TextPositions.{eq_refl}
pub use Prim.Native.String.{◌++◌ as append}

-- The test `s == ""`.
abbrev pub is_empty : String → Bool
is_empty String.[] = true
is_empty (String.◌∷◌ c s) = false

-- The runes that `range s` visits.
abbrev pub codes : String → List ℕ
codes String.[] = []
codes (String.◌∷◌ c s) = code c ∷ codes s

abbrev pub digit : ℕ → String
digit d =
    if d == 0
    then "0"
    else if d == 1
    then "1"
    else if d == 2
    then "2"
    else if d == 3
    then "3"
    else if d == 4
    then "4"
    else if d == 5
    then "5"
    else if d == 6
    then "6"
    else if d == 7
    then "7"
    else if d == 8
    then "8"
    else "9"

-- Decimal digits, on fuel for at most that many digits.
unfoldable pub digits : ℕ → ℕ → String
digits zero n = ""
digits (suc fuel) n =
    let rest = append (digits fuel (n / 10)) (digit (n % 10)) in if ltb n 10 then digit n else rest

-- `strconv.FormatInt(z, 10)`, `strconv.Itoa` and `%d`: an int64 has at most 19 digits.
unfoldable pub format_int : ℤ → String
unfolding digits
format_int (pos n) = digits 20 n
format_int (negsuc n) = append "-" (digits 20 (suc n))

format_int_test : format_int (negsuc 1049) ≡ "-1050"
unfolding format_int
format_int_test = refl
