-- ===== src/Utils.antt =====
-- utils/utils.go, the number parsers. `strconv` is the standard library's.
use nodare_db_dev.Prelude.{
  All, Bool, Bool-cases, Bytes, List, Option, Returns, Run, [], ap, arith, at, if◌then◌else◌, inl,
  inr, leb, length, ltb, none, ok, refl, some, suc, true, zero, ℕ, ◌&&◌, ◌*◌, ◌++◌, ◌+◌, ◌-◌, ◌<◌,
  ◌==◌, ◌>>=◌, ◌^◌, ◌||◌, ◌∷◌, ◌≡◌,
}

-- The value of ASCII digits, from the most significant; `none` at any other byte.
unfoldable pub decimal : ℕ → Bytes → Option ℕ
decimal acc [] = some acc
decimal acc (c ∷ s) = if leb 48 c && leb c 57 then decimal (acc * 10 + (c - 48)) s else none

abbrev below : ℕ → Option ℕ → ℕ
below limit (some n) = if ltb n limit then n else 0
below limit none = 0

-- `strconv.Atoi` and `ParseInt` refuse an empty text, a digit outside ASCII and a value of 2 ^ 63
-- or more. The texts with a sign, which they take, do not pass `IsDigit`.
unfoldable pub str2int : Bytes → ℕ
str2int [] = 0
str2int (c ∷ s) = below (2 ^ 63) (decimal 0 (c ∷ s))

unfoldable pub str2int64 : Bytes → ℕ
str2int64 [] = 0
str2int64 (c ∷ s) = below (2 ^ 63) (decimal 0 (c ∷ s))

unfoldable pub str2uint64 : Bytes → ℕ
str2uint64 [] = 0
str2uint64 (c ∷ s) = below (2 ^ 64) (decimal 0 (c ∷ s))

-- The lines, each with the delimiter after it.
unfoldable pub lines2bytes : List Bytes → Bytes → Bytes
lines2bytes [] delim = []
lines2bytes (line ∷ lines) delim = (line ++ delim) ++ lines2bytes lines delim

-- The letters and the digits.
abbrev pub charset : Bytes
charset =
    97 ∷ 98 ∷ 99 ∷ 100 ∷ 101 ∷ 102 ∷ 103 ∷ 104 ∷ 105 ∷ 106 ∷ 107 ∷ 108 ∷ 109 ∷ 110 ∷ 111 ∷ 112 ∷ 113
    ∷ 114 ∷ 115 ∷ 116 ∷ 117 ∷ 118 ∷ 119 ∷ 120 ∷ 121 ∷ 122 ∷ 65 ∷ 66 ∷ 67 ∷ 68 ∷ 69 ∷ 70 ∷ 71 ∷ 72
    ∷ 73 ∷ 74 ∷ 75 ∷ 76 ∷ 77 ∷ 78 ∷ 79 ∷ 80 ∷ 81 ∷ 82 ∷ 83 ∷ 84 ∷ 85 ∷ 86 ∷ 87 ∷ 88 ∷ 89 ∷ 90 ∷ 48
    ∷ 49 ∷ 50 ∷ 51 ∷ 52 ∷ 53 ∷ 54 ∷ 55 ∷ 56 ∷ 57 ∷ []

-- `GenerateRandomString`: `pick i` is the `i`-th number of the random source, from `rand.Intn`.
unfoldable pub generate_random_string : (ℕ → ℕ) → ℕ → Run Bytes
generate_random_string pick zero = ok []
generate_random_string pick (suc n) = do
  c ← at charset (pick 0)
  rest ← generate_random_string (λ i. pick (suc i)) n
  ok (c ∷ rest)

-- A letter or a digit.
abbrev pub is_alnum : ℕ → Bool
is_alnum c = (leb 48 c && leb c 57) || ((leb 65 c && leb c 90) || (leb 97 c && leb c 122))

-- A letter, a digit, `_` or `-`.
abbrev pub is_word : ℕ → Bool
is_word c = is_alnum c || (c == 95 || c == 45)

abbrev pub IsAlnum : ℕ → Type 0
IsAlnum c = is_alnum c ≡ true

unfoldable all_alnum : Bytes → Bool
all_alnum [] = true
all_alnum (c ∷ s) = is_alnum c && all_alnum s

All-all_alnum : (s : Bytes) → all_alnum s ≡ true → All IsAlnum s
unfolding all_alnum
All-all_alnum [] e = tt
All-all_alnum (c ∷ s) e = elim (Bool-cases (is_alnum c)) [
  | inl one ↦ let e' = rw one at e in (one, All-all_alnum s e')
  | inr none_of ↦ let e' = rw none_of at e in absurd (cc)
]

charset-IsAlnum : All IsAlnum charset
charset-IsAlnum = All-all_alnum charset (unfold all_alnum in refl)

at-All : (P : ℕ → Type 0) (cs : Bytes) (i : ℕ) → All P cs → i < length cs → Returns (at cs i) P
unfolding at
at-All P [] i all lt = absurd (omega (arith, lt))
at-All P (c ∷ cs) zero all lt = (c, refl, all.0)
at-All P (c ∷ cs) (suc i) all lt = at-All P cs i all.1 (omega (arith, lt))

-- With numbers from `rand.Intn` of the length of the set, a random string returns, has its
-- length, and letters and digits alone.
pub generate_random_string-length :
    (pick : ℕ → ℕ) (n : ℕ)
    → ((i : ℕ) → pick i < 62)
    → Returns (generate_random_string pick n) λ s. (length s ≡ n) × All IsAlnum s
unfolding generate_random_string
generate_random_string-length pick zero small = ([], refl, (refl, tt))
generate_random_string-length pick (suc n) small =
    let (c, run, alnum) =
      at-All IsAlnum charset (pick 0) charset-IsAlnum (omega (arith, small 0)) in
    let (s, more, (wide, all)) =
      generate_random_string-length (λ i. pick (suc i)) n (λ i. small (suc i)) in
    rw (run, more) (c ∷ s, refl, (ap suc wide, (alnum, all)))
