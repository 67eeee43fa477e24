-- ===== src/Api/Amounts.antt =====
-- How src/api/schemas/balance.py and messages.py print an amount: `serialize_decimal`, on the cents
-- that a `Numeric(10, 2)` column holds.
use abrio.Prelude.{
  ℕ, zero, suc, ◌+◌, ◌-◌, ◌*◌, ◌/◌, ◌%◌, ◌≤◌, ◌<◌, ◌≡◌, ap, ◌∙◌, inl, inr, [], ◌∷◌, Text, ltb, ◌==◌,
  if◌then◌else◌, Bool-cases, arith, false, refl,
}
use abrio.Prelude.Int.{ℤ, pos, negsuc}

-- The decimal digits of a number before a text; `fuel` bounds their number.
unfoldable pub digits : ℕ → ℕ → Text → Text
digits zero n rest = (48 + n % 10) ∷ rest
digits (suc fuel) n rest =
    let more = digits fuel (n / 10) ((48 + n % 10) ∷ rest) in
    if ltb n 10 then (48 + n) ∷ rest else more

abbrev pub two_places : ℕ → Text
two_places n = digits n (n / 100) (46 ∷ (48 + n / 10 % 10) ∷ (48 + n % 10) ∷ [])

-- `f"{value:.2f}"`
unfoldable pub serialize_decimal : ℤ → Text
unfolding digits
serialize_decimal (pos n) = two_places n
serialize_decimal (negsuc n) = 45 ∷ two_places (suc n)

-- The hundredths that the digits behind a point denote, of which the first is worth `unit`.
abbrev pub read_fraction : ℕ → ℕ → Text → ℕ
read_fraction unit n [] = n
read_fraction unit n (c ∷ t) = read_fraction (unit / 10) (n + (c - 48) * unit) t

-- The hundredths that a decimal number denotes, after the whole part `n`: up to the point each
-- digit is worth ten of the next, and behind it a tenth and a hundredth.
abbrev pub read_onto : ℕ → Text → ℕ
read_onto n [] = n * 100
read_onto n (c ∷ t) =
    let whole = read_onto (n * 10 + (c - 48)) t in
    if c == 46 then read_fraction 10 (n * 100) t else whole

abbrev negate : ℕ → ℤ
negate zero = pos 0
negate (suc n) = negsuc n

-- The cents that a printed amount denotes.
abbrev pub read_amount : Text → ℤ
read_amount [] = pos 0
read_amount (c ∷ t) = if c == 45 then negate (read_onto 0 t) else pos (read_onto 0 (c ∷ t))

read_digit :
    (n d : ℕ) (rest : Text) → d < 10 → read_onto n ((48 + d) ∷ rest) ≡ read_onto (n * 10 + d) rest
read_digit n d rest h =
    let digit : (48 + d == 46) ≡ false = ground arith in
    let value : 48 + d - 48 ≡ d = omega arith in rw (digit, value) refl

read-digits :
    (fuel n : ℕ) (rest : Text) → n ≤ fuel → read_onto 0 (digits fuel n rest) ≡ read_onto n rest
unfolding digits
read-digits zero n rest h =
    let none_left : n % 10 ≡ n = omega (arith, h) in
    let tiny : n % 10 < 10 = omega arith in
    read_digit 0 (n % 10) rest tiny ∙ ap (λ k. read_onto k rest) (omega (arith, none_left))
read-digits (suc fuel) n rest h = elim (Bool-cases (ltb n 10)) [
  | inl e ↦
      rw e (read_digit 0 n rest (ground (arith, e)) ∙ ap (λ k. read_onto k rest) (omega arith))
  | inr big ↦
      let ten : 10 ≤ n = ground (arith, big) in
      let small : n / 10 ≤ fuel = omega (arith, h, ten) in
      let last : n % 10 < 10 = omega arith in
      let all : n / 10 * 10 + n % 10 ≡ n = omega arith in
      rw big (
        read-digits fuel (n / 10) ((48 + n % 10) ∷ rest) small
        ∙ read_digit (n / 10) (n % 10) rest last
        ∙ ap (λ k. read_onto k rest) all)
]

read-two_places : (n : ℕ) → read_onto 0 (two_places n) ≡ n
read-two_places n =
    let rest = (48 + n / 10 % 10) ∷ (48 + n % 10) ∷ [] in
    read-digits n (n / 100) (46 ∷ rest) (omega arith) ∙ omega arith

-- A printed amount begins with a digit.
unsigned :
    (fuel n : ℕ) (rest : Text)
    → read_amount (digits fuel n rest) ≡ pos (read_onto 0 (digits fuel n rest))
unfolding digits
unsigned zero n rest = ground arith
unsigned (suc fuel) n rest = elim (Bool-cases (ltb n 10)) [
  | inl e ↦ rw e (ground (arith, e))
  | inr big ↦ rw big (unsigned fuel (n / 10) ((48 + n % 10) ∷ rest))
]

-- The text that the API prints for an amount of whole cents, negative ones included, read as a
-- decimal number, by the place of its point, is that amount.
pub read_amount-serialize_decimal : (x : ℤ) → read_amount (serialize_decimal x) ≡ x
unfolding serialize_decimal
read_amount-serialize_decimal (pos n) =
    unsigned n (n / 100) (46 ∷ (48 + n / 10 % 10) ∷ (48 + n % 10) ∷ [])
    ∙ ap (λ k. pos k) (read-two_places n)
read_amount-serialize_decimal (negsuc n) = ap (λ k. negate k) (read-two_places (suc n))
