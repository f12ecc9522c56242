-- ===== src/Client/LoadTest/Rounds.antt =====
-- client/main.go: the keys of two rounds of the load test.
use nodare_db_dev.Prelude.{
  Bytes, [], ap, arith, length, refl, replicate, some, suc, sym, zero, ℕ, ◌++◌, ◌-◌, ◌<◌, ◌^◌, ◌∙◌,
  ◌∷◌, ◌≡◌,
}
use nodare_db_dev.Client.LoadTest.{count_key, key_name, pad_ten}
use nodare_db_dev.Server.Profile.{print_digits}
use nodare_db_dev.Server.Profile.Print.{decimal-print_digits}
use nodare_db_dev.Utils.{decimal}

append_cancel : (s a b : Bytes) → s ++ a ≡ s ++ b → a ≡ b
append_cancel [] a b e = e
append_cancel (c ∷ s) a b e = append_cancel s a b (ap rest_of e)
  where
    rest_of : Bytes → Bytes
    rest_of [] = []
    rest_of (x ∷ t) = t

decimal-zeros : (n : ℕ) (s : Bytes) → decimal 0 (replicate n 48 ++ s) ≡ decimal 0 s
unfolding decimal replicate
decimal-zeros zero s = refl
decimal-zeros (suc n) s = decimal-zeros n s

decimal-pad_ten : (r : ℕ) → r < 2 ^ 63 → decimal 0 (pad_ten r) ≡ some r
unfolding pad_ten
decimal-pad_ten r small =
    decimal-zeros (10 - length (print_digits 20 r [])) (print_digits 20 r [])
    ∙ (decimal-print_digits 20 r [] (omega (arith, small)) ∙ unfold decimal in refl)

-- Below 2 ^ 63, the keys of two rounds for the same number differ.
pub count_key-round :
    (i r r' : ℕ) → r < 2 ^ 63 → r' < 2 ^ 63 → count_key i r ≡ count_key i r' → r ≡ r'
unfolding count_key
count_key-round i r r' small small' e =
    let tails = append_cancel (print_digits 20 i []) _ _ e in
    let pads = append_cancel key_name _ _ tails in
    let lasts = append_cancel (pad_ten i) _ _ pads in
    let rounds = append_cancel (45 ∷ 114 ∷ 45 ∷ []) (pad_ten r) (pad_ten r') lasts in
    let same : some r ≡ some r' =
      sym (decimal-pad_ten r small) ∙ (ap (decimal 0) rounds ∙ decimal-pad_ten r' small') in
    cc
