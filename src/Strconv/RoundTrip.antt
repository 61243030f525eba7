-- ===== src/Strconv/RoundTrip.antt =====
-- Go's strconv: reading back a number that was written in decimal.
use Prim.Native.Char.{code}
use Prim.Native.String.append
use native.Mathlib.Nat.{pow-succ'}
use jira_connector.Base.{
  ℕ, zero, suc, ◌+◌, ◌-◌, ◌*◌, ◌/◌, ◌%◌, ◌^◌, ◌<◌, ◌≤◌, ◌≡◌, refl, ap, ◌∙◌, String, true, false,
  some, List, [], ◌∷◌, ◌++◌, arith, ltb, ◌==◌, if◌then◌else◌, ltb→lt, le→leb, ◌⊎◌, Bool-cases, inl,
  inr,
}
use jira_connector.Base.Int.{pos}
use jira_connector.Base.Text.{codes, append, digit, digits, format_int}
use jira_connector.Strconv.{parse_int, digits_value, max_uint64, unsigned, signed, in_range}

codes-append : (s t : String) → codes (append s t) ≡ codes s ++ codes t
codes-append String.[] t = ap codes (λ i. append.nil t i)
codes-append (String.◌∷◌ c s) t =
    ap codes (λ i. append.cons c s t i) ∙ ap (λ l. code c ∷ l) (codes-append s t)

codes-digit : (d : ℕ) → d < 10 → codes (digit d) ≡ (48 + d) ∷ []
codes-digit zero h = refl
codes-digit (suc zero) h = refl
codes-digit (suc (suc zero)) h = refl
codes-digit (suc (suc (suc zero))) h = refl
codes-digit (suc (suc (suc (suc zero)))) h = refl
codes-digit (suc (suc (suc (suc (suc zero))))) h = refl
codes-digit (suc (suc (suc (suc (suc (suc zero)))))) h = refl
codes-digit (suc (suc (suc (suc (suc (suc (suc zero))))))) h = refl
codes-digit (suc (suc (suc (suc (suc (suc (suc (suc zero)))))))) h = refl
codes-digit (suc (suc (suc (suc (suc (suc (suc (suc (suc zero))))))))) h = refl
codes-digit (suc (suc (suc (suc (suc (suc (suc (suc (suc (suc d)))))))))) h =
    absurd (omega (arith, h))

-- More characters after a number that has stayed in range.
digits_value-append :
    (a : ℕ) (xs ys : List ℕ) {m : ℕ}
    → digits_value a xs ≡ some m
    → m < max_uint64
    → digits_value a (xs ++ ys) ≡ digits_value m ys
unfolding digits_value
digits_value-append a [] ys h small = ground (arith, h)
digits_value-append a (c ∷ xs) ys {m} h small =
    ground (arith, h, small, digits_value-append (a * 10 + (c - 48)) xs ys {m = m})

one_digit :
    (a d : ℕ)
    → d < 10
    → a * 10 + d ≤ max_uint64
    → digits_value a ((48 + d) ∷ []) ≡ some (a * 10 + d)
unfolding digits_value
one_digit a d h small = ground (arith, h, small)

last_digit :
    (s : String) (n : ℕ)
    → n ≤ max_uint64
    → digits_value 0 (codes s) ≡ some (n / 10)
    → digits_value 0 (codes (append s (digit (n % 10)))) ≡ some n
last_digit s n small front =
    rw
      (
        codes-append s (digit (n % 10)),
        codes-digit (n % 10) (omega arith),
        digits_value-append 0 (codes s) ((48 + n % 10) ∷ []) front (omega (arith, small)),
        one_digit (n / 10) (n % 10) (omega arith) (omega (arith, small)),
      )
      (ap some (omega arith))

digits_value-digits :
    (fuel n : ℕ) → n < 10 ^ fuel → n ≤ max_uint64 → digits_value 0 (codes (digits fuel n)) ≡ some n
unfolding digits digits_value
digits_value-digits zero n few small = ap some (omega (arith, few))
digits_value-digits (suc fuel) n few small = elim (Bool-cases (ltb n 10)) [
  | inl e ↦
      rw (e, codes-digit n (ltb→lt n 10 e))
        (one_digit 0 n (ltb→lt n 10 e) (omega (arith, small)) ∙ ap some (omega arith))
  | inr e ↦ rw e (
      last_digit (digits fuel (n / 10)) n small (
        digits_value-digits fuel (n / 10) (omega (arith, few, pow-succ' 10 fuel))
          (omega (arith, small))))
]

-- The text of a number has a first digit.
abbrev Starts : List ℕ → Type 0
Starts [] = ⊥
Starts (c ∷ cs) = 48 ≤ c

Starts-append : (xs ys : List ℕ) → (xs ≡ []) ⊎ Starts xs → Starts ys → Starts (xs ++ ys)
Starts-append [] ys h k = k
Starts-append (x ∷ xs) ys (inl e) k = cc
Starts-append (x ∷ xs) ys (inr h) k = h

lead-Starts :
    (s : String) (n : ℕ)
    → (codes s ≡ []) ⊎ Starts (codes s)
    → Starts (codes (if ltb n 10 then digit n else append s (digit (n % 10))))
lead-Starts s n h = elim (Bool-cases (ltb n 10)) [
  | inl e ↦ rw (e, codes-digit n (ltb→lt n 10 e)) (omega arith)
  | inr e ↦
      rw (e, codes-append s (digit (n % 10)))
        (Starts-append (codes s) (codes (digit (n % 10))) h
          (rw (codes-digit (n % 10) (omega arith)) (omega arith)))
]

digits-Starts : (fuel n : ℕ) → Starts (codes (digits (suc fuel) n))
unfolding digits
digits-Starts zero n = lead-Starts "" n (inl refl)
digits-Starts (suc fuel) n =
    lead-Starts (digits (suc fuel) (n / 10)) n (inr (digits-Starts fuel (n / 10)))

other_than : (c d : ℕ) → d < c → (c == d) ≡ false
other_than c d h = ground (arith, h)

signed-digits :
    (cs : List ℕ) (n : ℕ)
    → Starts cs
    → digits_value 0 cs ≡ some n
    → n < 2 ^ 63
    → signed cs ≡ record { value = pos n; fine = true }
unfolding signed unsigned in_range
signed-digits [] n h k small = absurd h
signed-digits (c ∷ cs) n h k small =
    rw (other_than c b'-' (omega (arith, h)), other_than c b'+' (omega (arith, h)))
      (ap (in_range false) k ∙ (rw (le→leb n (2 ^ 63 - 1) (omega (arith, small))) refl))

-- Reading back what was written gives the number, for every non-negative int64.
pub parse_int-format_int :
    (n : ℕ) → n < 2 ^ 63 → parse_int (format_int (pos n)) ≡ record { value = pos n; fine = true }
unfolding parse_int format_int
parse_int-format_int n small =
    signed-digits (codes (digits 20 n)) n (digits-Starts 19 n)
      (digits_value-digits 20 n (omega (arith, small)) (omega (arith, small))) small
