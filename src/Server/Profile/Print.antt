-- ===== src/Server/Profile/Print.antt =====
-- server/socket.go and utils/utils.go: the numbers that a client of the profiler writes.
use native.Mathlib.Nat.{pow-suc}
use nodare_db_dev.Prelude.{
  ==_iff, All, Bool-cases, Bytes, [], ap, arith, false, inl, inr, leb, lt→ltb, refl, some, suc,
  true, zero, ℕ, ◌%◌, ◌&&◌, ◌*◌, ◌++◌, ◌+◌, ◌-◌, ◌/◌, ◌<◌, ◌==◌, ◌^◌, ◌∙◌, ◌∷◌, ◌≡◌, ◌≢◌,
}
use nodare_db_dev.Server.Listen.{comma}
use nodare_db_dev.Server.Listen.Listed.{split_comma-end, split_comma-part}
use nodare_db_dev.Server.Profile.{mem_args, print_digits}
use nodare_db_dev.Utils.{decimal, str2int}

digit-step :
    (m acc : ℕ) (s : Bytes) → m < 10 → decimal acc ((48 + m) ∷ s) ≡ decimal (acc * 10 + m) s
unfolding decimal
digit-step m acc s small = rw (is_digit, same) refl
  where
    is_digit : (leb 48 (48 + m) && leb (48 + m) 57) ≡ true
    is_digit = ground (arith, small)

    same : 48 + m - 48 ≡ m
    same = omega arith

pub decimal-print_digits :
    (fuel n : ℕ) (acc : Bytes) → n < 10 ^ fuel → decimal 0 (print_digits fuel n acc) ≡ decimal n acc
unfolding print_digits
decimal-print_digits zero n acc lt =
    let none_left : 0 ≡ n = omega (arith, lt) in ap (λ k. decimal k acc) none_left
decimal-print_digits (suc fuel) n acc lt = elim (Bool-cases (n / 10 == 0)) [
  | inl e ↦
      let low : 0 * 10 + n % 10 ≡ n = omega (arith, (==_iff (n / 10) 0).0 e) in
      rw e (digit-step (n % 10) 0 acc (omega arith) ∙ ap (λ k. decimal k acc) low)
  | inr e ↦
      let room : n / 10 < 10 ^ fuel = omega (arith, lt, pow-suc 10 fuel) in
      let whole : n / 10 * 10 + n % 10 ≡ n = omega arith in
      rw e (
        decimal-print_digits fuel (n / 10) ((48 + n % 10) ∷ acc) room
        ∙ digit-step (n % 10) (n / 10) acc (omega arith)
        ∙ ap (λ k. decimal k acc) whole)
]

-- A property of the ten digits holds of each byte of a number.
pub All-print_digits :
    (P : ℕ → Type 0) (fuel n : ℕ) (acc : Bytes)
    → ((m : ℕ) → m < 10 → P (48 + m))
    → All P acc
    → All P (print_digits fuel n acc)
unfolding print_digits
All-print_digits P zero n acc each all = all
All-print_digits P (suc fuel) n acc each all =
    let digit = each (n % 10) (omega arith) in
    elim (Bool-cases (n / 10 == 0)) [
      | inl e ↦ rw e (digit, all)
      | inr e ↦ rw e (All-print_digits P fuel (n / 10) ((48 + n % 10) ∷ acc) each (digit, all))
    ]

no_comma : (m : ℕ) → m < 10 → (48 + m == comma) ≡ false
no_comma m lt = ground (arith, lt)

str2int-decimal : (s : Bytes) (n : ℕ) → s ≢ [] → n < 2 ^ 63 → decimal 0 s ≡ some n → str2int s ≡ n
unfolding str2int
str2int-decimal [] n ne small e = absurd (ne refl)
str2int-decimal (c ∷ s) n ne small e = rw (e, lt→ltb n (2 ^ 63) small) refl

print_digits-nonempty : (fuel n c : ℕ) (acc : Bytes) → print_digits fuel n (c ∷ acc) ≢ []
unfolding print_digits
print_digits-nonempty zero n c acc e = absurd (cc)
print_digits-nonempty (suc fuel) n c acc e = elim (Bool-cases (n / 10 == 0)) [
  | inl t ↦ let e' = rw t at e in absurd (cc)
  | inr t ↦ let e' = rw t at e in print_digits-nonempty fuel (n / 10) (48 + n % 10) (c ∷ acc) e'
]

some_digit : (n : ℕ) → print_digits 20 n [] ≢ []
unfolding print_digits
some_digit n e = elim (Bool-cases (n / 10 == 0)) [
  | inl t ↦ let e' = rw t at e in absurd (cc)
  | inr t ↦ let e' = rw t at e in print_digits-nonempty 19 (n / 10) (48 + n % 10) [] e'
]

pub str2int-print_digits : (n : ℕ) → n < 2 ^ 63 → str2int (print_digits 20 n []) ≡ n
unfolding decimal
str2int-print_digits n small =
    str2int-decimal (print_digits 20 n []) n (some_digit n) small
      (decimal-print_digits 20 n [] (omega (arith, small)))

-- The run, not 0, and the wait, both below 2 ^ 63, in digits and with a comma between them, are
-- read by the command of the memory profile as these two numbers.
pub mem_args-print_digits :
    (run wait : ℕ)
    → 0 < run
    → run < 2 ^ 63
    → wait < 2 ^ 63
    → mem_args (print_digits 20 run [] ++ comma ∷ print_digits 20 wait []) ≡ (run, wait)
unfolding mem_args
mem_args-print_digits run wait pos small small' =
    let first = All-print_digits (λ c. (c == comma) ≡ false) 20 run [] no_comma tt in
    let second = All-print_digits (λ c. (c == comma) ≡ false) 20 wait [] no_comma tt in
    rw
      (
        split_comma-part [] (print_digits 20 run []) (print_digits 20 wait []) first,
        split_comma-end [] (print_digits 20 wait []) second,
        str2int-print_digits run small,
        str2int-print_digits wait small',
        lt→ltb 0 run pos,
      )
      refl
