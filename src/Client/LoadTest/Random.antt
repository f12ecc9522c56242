-- ===== src/Client/LoadTest/Random.antt =====
-- client/main.go: the random keys and values of the load test, and the pair of each item.
use nodare_db_dev.Prelude.{
  Bytes, [], ap, arith, if◌then◌else◌, leb, length, ltb, refl, suc, zero, ℕ, ◌%◌, ◌*◌, ◌+◌, ◌-◌,
  ◌/◌, ◌∷◌, ◌≡◌,
}

-- A digit of "encoding/hex".
unfoldable pub hex_digit : ℕ → ℕ
hex_digit n = if ltb n 10 then 48 + n else 87 + n

unfoldable pub hex_encode : Bytes → Bytes
hex_encode [] = []
hex_encode (b ∷ bs) = hex_digit (b / 16) ∷ hex_digit (b % 16) ∷ hex_encode bs

-- The bytes that `crand.Read` fills in: `read k` is the k-th.
unfoldable pub read_bytes : ℕ → (ℕ → ℕ) → Bytes
read_bytes zero read = []
read_bytes (suc n) read = read 0 ∷ read_bytes n (λ k. read (k + 1))

-- `length / 2`, and at least 1.
unfoldable pub use_len : ℕ → ℕ
use_len len = if leb (len / 2) 0 then 1 else len / 2

unfoldable pub dev_urandom_string : ℕ → (ℕ → ℕ) → Bytes
dev_urandom_string len read = hex_encode (read_bytes (use_len len) read)

length-hex_encode : (bs : Bytes) → length (hex_encode bs) ≡ 2 * length bs
unfolding hex_encode
length-hex_encode [] = omega arith
length-hex_encode (b ∷ bs) = omega (arith, length-hex_encode bs)

length-read_bytes : (n : ℕ) (read : ℕ → ℕ) → length (read_bytes n read) ≡ n
unfolding read_bytes
length-read_bytes zero read = refl
length-read_bytes (suc n) read = ap suc (length-read_bytes n (λ k. read (k + 1)))

-- A random string has the length that is asked for if that is even and not 0; an odd length above
-- 1 gives one character less, and the lengths 0 and 1 give two.
pub length-dev_urandom_string :
    (len : ℕ) (read : ℕ → ℕ)
    → length (dev_urandom_string len read) ≡ (if ltb len 2 then 2 else len - len % 2)
unfolding dev_urandom_string use_len
length-dev_urandom_string len read = rw (length-hex_encode, length-read_bytes) (ground arith)
