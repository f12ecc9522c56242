-- ===== src/Database/Power.antt =====
-- `nextPower` of database/dick.go gives the least power of two that is at least the size.
use native.Mathlib.Nat.{
  div-div-eq-div-mul, div-one, pow-suc, mul_comm, two-pow-succ, pow-le-pow_right,
}
use nodare_db_dev.Prelude.{
  ==_iff, Bool-cases, ap, arith, bit_or, false, inl, inr, ltb, ltb→lt, lt→ltb, refl, suc, sym, zero,
  ℕ, ◌%◌, ◌*◌, ◌+◌, ◌-◌, ◌/◌, ◌<◌, ◌==◌, ◌^◌, ◌∙◌, ◌≡◌, ◌≤◌,
}
use nodare_db_dev.Database.Table.{dec, fold_bits, inc, initial_size, next_power, slt-eq}
use nodare_db_dev.Prelude.Bits.{bit_or-half, bit_or-parity}

-- A function on numbers that works on each binary digit alike: it commutes with halving.
abbrev Halves : (ℕ → ℕ) → Type 0
Halves g = (x : ℕ) → g x / 2 ≡ g (x / 2)

div-pow-suc : (x n : ℕ) → x / 2 ^ suc n ≡ x / 2 / 2 ^ n
div-pow-suc x n =
    ap (λ t. x / t) (pow-suc 2 n ∙ mul_comm (2 ^ n) 2) ∙ sym (div-div-eq-div-mul x 2 (2 ^ n))

div-pow-half : (x n : ℕ) → x / 2 ^ n / 2 ≡ x / 2 / 2 ^ n
div-pow-half x n =
    div-div-eq-div-mul x (2 ^ n) 2
    ∙ (ap (λ t. x / t) (mul_comm (2 ^ n) 2) ∙ sym (div-div-eq-div-mul x 2 (2 ^ n)))

Halves-shift : (g : ℕ → ℕ) → Halves g → (n x : ℕ) → g x / 2 ^ n ≡ g (x / 2 ^ n)
Halves-shift g half zero x = div-one (g x) ∙ ap g (sym (div-one x))
Halves-shift g half (suc n) x =
    div-pow-suc (g x) n
    ∙ (ap (λ t. t / 2 ^ n) (half x)
        ∙ (Halves-shift g half n (x / 2) ∙ ap g (sym (div-pow-suc x n))))

-- The result is even only if the last `2 ^ w` digits of the argument are 0.
abbrev Gathers : ℕ → (ℕ → ℕ) → Type 0
Gathers w g = (x : ℕ) → g x % 2 ≡ 0 → x % 2 ^ w ≡ 0

-- `size |= size >> k` after `g` gathers twice as many digits.
fold_bits-Halves : (k : ℕ) (g : ℕ → ℕ) → Halves g → Halves (λ x. fold_bits k (g x))
unfolding fold_bits
fold_bits-Halves k g half x =
    bit_or-half (g x) (g x / 2 ^ k)
    ∙ (ap (bit_or (g x / 2)) (div-pow-half (g x) k) ∙ ap (λ t. bit_or t (t / 2 ^ k)) (half x))

fold_bits-even :
    (k : ℕ) (g : ℕ → ℕ) (x : ℕ)
    → Halves g
    → fold_bits k (g x) % 2 ≡ 0
    → (g x % 2 ≡ 0) × (g (x / 2 ^ k) % 2 ≡ 0)
unfolding fold_bits
fold_bits-even k g x half e =
    let parity = bit_or-parity (g x) (g x / 2 ^ k) in
    let shifted = ap (λ t. t % 2) (Halves-shift g half k x) in
    (omega (arith, parity, e), omega (arith, parity, e, shifted))

-- The rounds of `nextPower`, each on the result of those before.
abbrev spread1 : ℕ → ℕ
spread1 x = fold_bits 1 x

abbrev spread2 : ℕ → ℕ
spread2 x = fold_bits 2 (spread1 x)

abbrev spread4 : ℕ → ℕ
spread4 x = fold_bits 4 (spread2 x)

abbrev spread8 : ℕ → ℕ
spread8 x = fold_bits 8 (spread4 x)

abbrev spread16 : ℕ → ℕ
spread16 x = fold_bits 16 (spread8 x)

abbrev spread : ℕ → ℕ
spread x = fold_bits 32 (spread16 x)

spread1-Halves : Halves spread1
spread1-Halves = fold_bits-Halves 1 (λ x. x) (λ x. refl)

spread2-Halves : Halves spread2
spread2-Halves = fold_bits-Halves 2 spread1 spread1-Halves

spread4-Halves : Halves spread4
spread4-Halves = fold_bits-Halves 4 spread2 spread2-Halves

spread8-Halves : Halves spread8
spread8-Halves = fold_bits-Halves 8 spread4 spread4-Halves

spread16-Halves : Halves spread16
spread16-Halves = fold_bits-Halves 16 spread8 spread8-Halves

spread-Halves : Halves spread
spread-Halves = fold_bits-Halves 32 spread16 spread16-Halves

spread1-Gathers : Gathers 2 spread1
spread1-Gathers x e =
    let (lo, hi) = fold_bits-even 1 (λ x. x) x (λ x. refl) e in omega (arith, lo, hi)

spread2-Gathers : Gathers 4 spread2
spread2-Gathers x e =
    let (lo, hi) = fold_bits-even 2 spread1 x spread1-Halves e in
    omega (arith, spread1-Gathers x lo, spread1-Gathers (x / 2 ^ 2) hi)

spread4-Gathers : Gathers 8 spread4
spread4-Gathers x e =
    let (lo, hi) = fold_bits-even 4 spread2 x spread2-Halves e in
    omega (arith, spread2-Gathers x lo, spread2-Gathers (x / 2 ^ 4) hi)

spread8-Gathers : Gathers 16 spread8
spread8-Gathers x e =
    let (lo, hi) = fold_bits-even 8 spread4 x spread4-Halves e in
    omega (arith, spread4-Gathers x lo, spread4-Gathers (x / 2 ^ 8) hi)

spread16-Gathers : Gathers 32 spread16
spread16-Gathers x e =
    let (lo, hi) = fold_bits-even 16 spread8 x spread8-Halves e in
    omega (arith, spread8-Gathers x lo, spread8-Gathers (x / 2 ^ 16) hi)

spread-Gathers : Gathers 64 spread
spread-Gathers x e =
    let (lo, hi) = fold_bits-even 32 spread16 x spread16-Halves e in
    omega (arith, spread16-Gathers x lo, spread16-Gathers (x / 2 ^ 32) hi)

odd_of : (n : ℕ) → (n % 2 == 0) ≡ false → n % 2 ≡ 1
odd_of n e = ground arith

-- The digit that the halves leave is 1.
spread-digit : (x : ℕ) → 0 < x → x < 2 ^ 64 → spread x ≡ spread (x / 2) * 2 + 1
spread-digit x pos lt = elim (Bool-cases (spread x % 2 == 0)) [
  | inl even ↦
      let none_left = spread-Gathers x ((==_iff (spread x % 2) 0).0 even) in
      absurd (omega (arith, none_left))
  | inr odd ↦ omega (arith, spread-Halves x, odd_of (spread x) odd)
]

-- The power of two above `x`.
spread-power :
    (n x : ℕ)
    → x ≤ n
    → 0 < x
    → x < 2 ^ 64
    → (k : ℕ) × (spread x + 1 ≡ 2 ^ k) × (x < 2 ^ k) × (2 ^ k ≤ 2 * x)
unfolding fold_bits
spread-power zero x le pos lt = absurd (omega arith)
spread-power (suc n) zero le pos lt = elim pos [ ]
spread-power (suc n) (suc zero) le pos lt = (1, refl, omega arith, omega arith)
spread-power (suc n) (suc (suc x)) le pos lt =
    let (k, e, above, twice) =
      spread-power n (suc (suc x) / 2) (omega arith) (omega arith) (omega arith) in
    let digit = spread-digit (suc (suc x)) (omega arith) lt in
    let double = two-pow-succ k in
    (
      suc k,
      omega (arith, digit, e, double),
      omega (arith, above, double),
      omega (arith, twice, double),
    )

pow-le-pow : (i j : ℕ) → 2 ^ i < 2 * 2 ^ j → i ≤ j
pow-le-pow i j lt = elim (Bool-cases (ltb j i)) [
  | inl above ↦
      let le = pow-le-pow_right {n = 2} (omega arith) {i = suc j} {j = i} (ltb→lt j i above) in
      absurd (omega (arith, le, two-pow-succ j))
  | inr not_above ↦ ground arith
]

dec-pos : (n : ℕ) → 0 < n → n < 2 ^ 63 → dec n ≡ n - 1
dec-pos n pos lt = omega arith

next_power-above :
    (size : ℕ) → initial_size < size → size < 2 ^ 63 → next_power size ≡ inc (spread (size - 1))
unfolding next_power
next_power-above size over lt =
    rw
      (
        slt-eq initial_size size (omega arith) lt,
        lt→ltb initial_size size over,
        dec-pos size (omega arith) lt,
      )
      refl

inc-pow : (m n : ℕ) → m + 1 ≡ n → n < 2 ^ 64 → inc m ≡ n
inc-pow m n e lt = omega arith

next_power-small : (size : ℕ) → size ≤ initial_size → next_power size ≡ 2 ^ 7
unfolding next_power
next_power-small size le =
    let not_above : (ltb initial_size size) ≡ false = ground arith in
    rw (slt-eq initial_size size (omega arith) (omega arith), not_above) refl

-- For a size up to 2 ^ 62, `nextPower` is a power of two that is at least the size and at least
-- `INITIAL_SIZE`, and the least such power.
pub next_power-least :
    (size : ℕ)
    → size ≤ 2 ^ 62
    → (k : ℕ) × (next_power size ≡ 2 ^ k)
      × (size ≤ 2 ^ k)
      × (initial_size ≤ 2 ^ k)
      × ((j : ℕ) → size ≤ 2 ^ j → initial_size ≤ 2 ^ j → k ≤ j)
next_power-least size small = elim (Bool-cases (ltb initial_size size)) [
  | inl above ↦
      let over = ltb→lt initial_size size above in
      let (k, e, le, twice) =
        spread-power size (size - 1) (omega arith) (omega arith) (omega arith) in
      (
        k,
        next_power-above size over (omega arith)
            ∙ inc-pow (spread (size - 1)) (2 ^ k) e (omega (arith, twice)),
        omega (arith, le),
        omega (arith, le),
        λ j fits start. pow-le-pow k j (omega (arith, twice)),
      )
  | inr not_above ↦
      let le : size ≤ initial_size = ground arith in
      (
        7,
        next_power-small size le,
        omega arith,
        omega arith,
        λ j fits start. pow-le-pow 7 j (omega arith),
      )
]
