-- ===== src/Client/Escape.antt =====
-- client/clilib/client.go, the escapes of line ends. `strings.Replace` is the standard library's: all
-- the places of the old text, from the left, without overlap.
use nodare_db_dev.Prelude.{
  ==_iff, All, Bool-cases, Bytes, [], ap, false, if◌then◌else◌, inl, inr, refl, true, ℕ, ◌&&◌, ◌==◌,
  ◌∙◌, ◌∷◌, ◌≡◌,
}

abbrev pub backslash : ℕ
backslash = 92

-- A byte is replaced by a backslash and the letter `x`.
unfoldable pub replace_byte : ℕ → ℕ → Bytes → Bytes
replace_byte c x [] = []
replace_byte c x (d ∷ s) =
    let rest = replace_byte c x s in if d == c then backslash ∷ x ∷ rest else d ∷ rest

-- A backslash and the letter `x` are replaced by the byte `c`.
unfoldable pub replace_pair : ℕ → ℕ → Bytes → Bytes
replace_pair x c [] = []
replace_pair x c (d ∷ []) = d ∷ []
replace_pair x c (d ∷ e ∷ s) = elim (d == backslash && e == x) [
  | true ↦ c ∷ replace_pair x c s
  | false ↦ d ∷ replace_pair x c (e ∷ s)
]

unfoldable pub escape_cr : Bytes → Bytes
escape_cr s = replace_byte 13 114 s

unfoldable pub un_escape_cr : Bytes → Bytes
un_escape_cr s = replace_pair 114 13 s

unfoldable pub escape_lf : Bytes → Bytes
escape_lf s = replace_byte 10 110 s

unfoldable pub un_escape_lf : Bytes → Bytes
un_escape_lf s = replace_pair 110 10 s

unfoldable pub escape : Bytes → Bytes
escape s = escape_cr (escape_lf s)

unfoldable pub un_escape : Bytes → Bytes
un_escape s = un_escape_cr (un_escape_lf s)

-- A text without a backslash.
abbrev pub IsPlain : Bytes → Type 0
IsPlain s = All (λ c. (c == backslash) ≡ false) s

replace_pair-other :
    (x c d : ℕ) (s : Bytes)
    → (d == backslash) ≡ false
    → replace_pair x c (d ∷ s) ≡ d ∷ replace_pair x c s
unfolding replace_pair
replace_pair-other x c d [] e = refl
replace_pair-other x c d (a ∷ s) e = rw (e, replace_pair) refl

un_escape_cr-escape_cr : (s : Bytes) → IsPlain s → replace_pair 114 13 (replace_byte 13 114 s) ≡ s
unfolding replace_byte replace_pair
un_escape_cr-escape_cr [] plain = refl
un_escape_cr-escape_cr (c ∷ s) plain = elim (Bool-cases (c == 13)) [
  | inl e ↦ rw e (rw ((==_iff c 13).0 e) (ap (λ t. 13 ∷ t) (un_escape_cr-escape_cr s plain.1)))
  | inr e ↦ rw e (
      replace_pair-other 114 13 c (replace_byte 13 114 s) plain.0
      ∙ ap (λ t. c ∷ t) (un_escape_cr-escape_cr s plain.1))
]

un_escape_lf-escape :
    (s : Bytes)
    → IsPlain s
    → replace_pair 110 10 (replace_byte 13 114 (replace_byte 10 110 s)) ≡ replace_byte 13 114 s
unfolding replace_byte replace_pair
un_escape_lf-escape [] plain = refl
un_escape_lf-escape (c ∷ s) plain = elim (Bool-cases (c == 10)) [
  | inl e ↦ rw ((==_iff c 10).0 e) (ap (λ t. 10 ∷ t) (un_escape_lf-escape s plain.1))
  | inr e ↦ rw e (elim (Bool-cases (c == 13)) [
    | inl r ↦ rw ((==_iff c 13).0 r) (
        ap (λ t. backslash ∷ t)
          (replace_pair-other 110 10 114 _ refl
            ∙ ap (λ t. 114 ∷ t) (un_escape_lf-escape s plain.1)))
    | inr r ↦
        rw r
          (replace_pair-other 110 10 c _ plain.0 ∙ ap (λ t. c ∷ t) (un_escape_lf-escape s plain.1))
  ])
]

-- `UnEscape` gives back every text without a backslash from its `Escape`.
pub un_escape-escape : (s : Bytes) → IsPlain s → un_escape (escape s) ≡ s
unfolding escape un_escape escape_cr escape_lf un_escape_cr un_escape_lf
un_escape-escape s plain = rw (un_escape_lf-escape s plain) (un_escape_cr-escape_cr s plain)
