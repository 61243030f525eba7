-- ===== src/Mapper/Hash.antt =====
-- internal/mapper/jira_to_raw.go, `HashID`: its range, its value, and equal values.
use Prim.Native.Char.{Char, code}
use native.Mathlib.Nat.{mul-le-mul_right, mul-le-mul_left, pow-succ', pow-le-pow_right, zero-add}
use jira_connector.Base.{
  ℕ, ◌+◌, ◌*◌, ◌^◌, ◌%◌, ◌≤◌, ◌<◌, ◌≡◌, refl, String, List, [], ◌∷◌, arith, length, All, ap,
}
use jira_connector.Base.Int.{ℤ, pos}
use jira_connector.Base.Text.{codes}
use jira_connector.Mapper.{hash_step, hash_loop, hash_id}

-- What a hash is for the database: a non-negative number that an int4 column holds.
pub data FitsInt4 : ℤ → Type 0 where
  fits : (n : ℕ) → n < 2 ^ 31 → FitsInt4 (pos n)

-- For every string, HashID is a non-negative number below 2 ^ 31, also where the sum overflows.
pub hash_id-FitsInt4 : (s : String) → FitsInt4 (hash_id s)
unfolding hash_id
hash_id-FitsInt4 String.[] = fits 0 (omega arith)
hash_id-FitsInt4 (String.◌∷◌ c s) = fits _ (omega arith)

-- The running hash never becomes negative again, but for the one value that has no negation.
pub hash_step-le : (h c : ℕ) → hash_step h c ≤ 2 ^ 63
unfolding hash_step
hash_step-le h c = ground arith

-- The polynomial in 31 with the runes as coefficients, without overflow.
abbrev pub poly : ℕ → List ℕ → ℕ
poly h [] = h
poly h (c ∷ cs) = poly (h * 31 + c) cs

le-poly : (h : ℕ) (cs : List ℕ) → h ≤ poly h cs
le-poly h [] = omega arith
le-poly h (c ∷ cs) = omega (arith, le-poly (h * 31 + c) cs)

hash_step_exact : (h c : ℕ) → h * 31 + c < 2 ^ 63 → hash_step h c ≡ h * 31 + c
unfolding hash_step
hash_step_exact h c p = ground arith

hash_loop_exact : (h : ℕ) (cs : List ℕ) → poly h cs < 2 ^ 63 → hash_loop h cs ≡ poly h cs
unfolding hash_loop
hash_loop_exact h [] p = refl
hash_loop_exact h (c ∷ cs) p =
    rw (hash_step_exact h c (omega (arith, le-poly (h * 31 + c) cs)))
      (hash_loop_exact (h * 31 + c) cs p)

-- While the polynomial stays below 2 ^ 63, HashID is its value modulo 2 ^ 31.
pub hash_id-eq-poly :
    (s : String) → poly 0 (codes s) < 2 ^ 63 → hash_id s ≡ pos (poly 0 (codes s) % 2 ^ 31)
unfolding hash_id
hash_id-eq-poly String.[] p = refl
hash_id-eq-poly (String.◌∷◌ c s) p =
    ap (λ n. pos (n % 2 ^ 31)) (hash_loop_exact 0 (codes (String.◌∷◌ c s)) p)

poly_bound :
    (h : ℕ) (cs : List ℕ)
    → All (λ c. c < 128) cs
    → 30 * poly h cs + 127 ≤ (30 * h + 127) * 31 ^ length cs
poly_bound h [] a = omega arith
poly_bound h (c ∷ cs) a =
    let step : 30 * (h * 31 + c) + 127 ≤ (30 * h + 127) * 31 = omega arith in
    let room : (30 * (h * 31 + c) + 127) * 31 ^ length cs ≤ (30 * h + 127) * 31 * 31 ^ length cs =
      mul-le-mul_right (31 ^ length cs) step in
    rw pow-succ' (omega (arith, poly_bound (h * 31 + c) cs a.1, room))

pow_mono : (n : ℕ) → n ≤ 12 → 31 ^ n ≤ 31 ^ 12
pow_mono n h = pow-le-pow_right (omega arith) h

-- For an ASCII name of at most twelve characters nothing overflows: HashID is the polynomial
-- modulo 2 ^ 31.
pub hash_id_short :
    (s : String)
    → All (λ c. c < 128) (codes s)
    → length (codes s) ≤ 12
    → hash_id s ≡ pos (poly 0 (codes s) % 2 ^ 31)
hash_id_short s a n =
    let room : 127 * 31 ^ length (codes s) ≤ 127 * 31 ^ 12 = mul-le-mul_left 127 (pow_mono _ n) in
    hash_id-eq-poly s (omega (arith, poly_bound 0 (codes s) a, room))

hash_loop_two :
    (c d : ℕ) (cs : List ℕ)
    → c < 2 ^ 32
    → d < 2 ^ 32
    → hash_loop 0 (c ∷ d ∷ cs) ≡ hash_loop (c * 31 + d) cs
unfolding hash_loop
hash_loop_two c d cs p q =
    rw (hash_step_exact 0 c (omega arith))
      (rw (hash_step_exact (0 * 31 + c) d (omega arith)) (rw zero-add))

-- Names whose first two runes agree in 31 * first + second, and that agree from there on, have one
-- and the same id: two such people become one author.
pub hash_id-collision :
    (c d c' d' : Char) (s : String)
    → code c < 2 ^ 32
    → code d < 2 ^ 32
    → code c' < 2 ^ 32
    → code d' < 2 ^ 32
    → code c * 31 + code d ≡ code c' * 31 + code d'
    → hash_id (String.◌∷◌ c (String.◌∷◌ d s)) ≡ hash_id (String.◌∷◌ c' (String.◌∷◌ d' s))
unfolding hash_id
hash_id-collision c d c' d' s bc bd bc' bd' e = cc (
  hash_loop_two (code c) (code d) (codes s) bc bd,
  hash_loop_two (code c') (code d') (codes s) bc' bd',
)
