-- ===== src/Client/LoadTest/Words.antt =====
-- client/main.go: what the keys and the values of the load test consist of, in both modes.
use nodare_db_dev.Prelude.{
  All, Bool-cases, Bytes, [], ap, arith, inl, inr, length, length-append, length-replicate, refl,
  replicate, suc, true, zero, ℕ, ◌%◌, ◌++◌, ◌+◌, ◌-◌, ◌/◌, ◌<◌, ◌==◌, ◌∷◌, ◌≡◌, ◌≢◌, ◌≤◌,
}
use nodare_db_dev.Client.LoadTest.{count_key, count_val, key_name, pad_ten, tail_of, val_name}
use nodare_db_dev.Client.LoadTest.Random.{
  dev_urandom_string, hex_digit, hex_encode, length-dev_urandom_string, read_bytes,
}
use nodare_db_dev.Server.Profile.{print_digits}
use nodare_db_dev.Server.Profile.Print.{All-print_digits}
use nodare_db_dev.Server.Session.{key_limit}
use nodare_db_dev.Utils.{is_word}

-- A text that client and server pass on as it is: letters, digits, `_` and `-`, not empty, and
-- within the limit of keys and of values.
pub record IsWord (s : Bytes) : Type 0 where
  pub not_empty : s ≢ []
  pub all_word : All (λ c. is_word c ≡ true) s
  pub within : length s ≤ key_limit

All-append : (P : ℕ → Type 0) (s t : Bytes) → All P s → All P t → All P (s ++ t)
All-append P [] t all all' = all'
All-append P (c ∷ s) t (first, all) all' = (first, All-append P s t all all')

All-replicate : (P : ℕ → Type 0) (n c : ℕ) → P c → All P (replicate n c)
unfolding replicate
All-replicate P zero c holds = tt
All-replicate P (suc n) c holds = (holds, All-replicate P n c holds)

digit-word : (m : ℕ) → m < 10 → is_word (48 + m) ≡ true
digit-word m lt = ground (arith, lt)

abbrev AllWord : Bytes → Type 0
AllWord s = All (λ c. is_word c ≡ true) s

print_digits-AllWord : (n : ℕ) → AllWord (print_digits 20 n [])
print_digits-AllWord n = All-print_digits (λ c. is_word c ≡ true) 20 n [] digit-word tt

length-print_digits :
    (fuel n : ℕ) (acc : Bytes) → length (print_digits fuel n acc) ≤ fuel + length acc
unfolding print_digits
length-print_digits zero n acc = omega arith
length-print_digits (suc fuel) n acc =
    let rest = length-print_digits fuel (n / 10) ((48 + n % 10) ∷ acc) in
    elim (Bool-cases (n / 10 == 0)) [
      | inl e ↦ rw e (omega arith)
      | inr e ↦ rw e (omega (arith, rest))
    ]

pad_ten-AllWord : (n : ℕ) → AllWord (pad_ten n)
unfolding pad_ten
pad_ten-AllWord n =
    All-append (λ c. is_word c ≡ true) (replicate (10 - length (print_digits 20 n [])) 48) _
      (All-replicate (λ c. is_word c ≡ true) _ 48 (digit-word 0 (omega arith)))
      (print_digits-AllWord n)

length-pad_ten : (n : ℕ) → length (pad_ten n) ≤ 30
unfolding pad_ten
length-pad_ten n = omega (
  arith,
  length-append (replicate (10 - length (print_digits 20 n [])) 48) (print_digits 20 n []),
  length-replicate {A = ℕ} (10 - length (print_digits 20 n [])) 48,
  length-print_digits 20 n [],
)

-- A number, a name of nine bytes, the number again, "-r-" and the round.
named-IsWord :
    (name : Bytes) (start r : ℕ)
    → AllWord name
    → length name ≡ 9
    → IsWord (print_digits 20 start [] ++ tail_of name start r)
named-IsWord name start r all nine = record {
  not_empty = λ e. absurd (
      omega (
        arith,
        ap length e,
        nine,
        length-append (print_digits 20 start []) (tail_of name start r),
        length-append name (pad_ten start ++ ((45 ∷ 114 ∷ 45 ∷ []) ++ pad_ten r)),
      ));
  all_word = All-append _ (print_digits 20 start []) _ (print_digits-AllWord start) (
      All-append _ name _ all (
        All-append _ (pad_ten start) _ (pad_ten-AllWord start)
          ((refl, (refl, (refl, pad_ten-AllWord r))))));
  within = omega (
    arith,
    nine,
    length-append (print_digits 20 start []) (tail_of name start r),
    length-append name (pad_ten start ++ ((45 ∷ 114 ∷ 45 ∷ []) ++ pad_ten r)),
    length-append (pad_ten start) ((45 ∷ 114 ∷ 45 ∷ []) ++ pad_ten r),
    length-pad_ten start,
    length-pad_ten r,
    length-print_digits 20 start [],
  );
}

pub count_key-IsWord : (start r : ℕ) → IsWord (count_key start r)
unfolding count_key
count_key-IsWord start r =
    named-IsWord key_name start r
      (refl, (refl, (refl, (refl, (refl, (refl, (refl, (refl, (refl, tt))))))))) refl

pub count_val-IsWord : (start r : ℕ) → IsWord (count_val start r)
unfolding count_val
count_val-IsWord start r =
    named-IsWord val_name start r
      (refl, (refl, (refl, (refl, (refl, (refl, (refl, (refl, (refl, tt))))))))) refl

hex_digit-word : (n : ℕ) → n < 16 → is_word (hex_digit n) ≡ true
unfolding hex_digit
hex_digit-word n lt = ground (arith, lt)

hex_encode-AllWord : (bs : Bytes) → All (λ b. b < 256) bs → AllWord (hex_encode bs)
unfolding hex_encode
hex_encode-AllWord [] all = tt
hex_encode-AllWord (b ∷ bs) (byte, all) = (
  hex_digit-word (b / 16) (omega (arith, byte)),
  (hex_digit-word (b % 16) (omega arith), hex_encode-AllWord bs all),
)

read_bytes-All :
    (n : ℕ) (read : ℕ → ℕ) → ((k : ℕ) → read k < 256) → All (λ b. b < 256) (read_bytes n read)
unfolding read_bytes
read_bytes-All zero read byte = tt
read_bytes-All (suc n) read byte =
    (byte 0, read_bytes-All n (λ k. read (k + 1)) (λ k. byte (k + 1)))

pub dev_urandom_string-IsWord :
    (len : ℕ) (read : ℕ → ℕ)
    → len ≤ key_limit
    → ((k : ℕ) → read k < 256)
    → IsWord (dev_urandom_string len read)
dev_urandom_string-IsWord len read le byte = record {
  not_empty = λ e.
      let wide = ap length e in absurd (ground (arith, wide, length-dev_urandom_string len read));
  all_word = unfold dev_urandom_string in hex_encode-AllWord _ (read_bytes-All _ read byte);
  within = ground (arith, le, length-dev_urandom_string len read);
}
