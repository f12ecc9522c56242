-- ===== src/Client/Workers/Counting.antt =====
-- client/main.go: the load test with keys that count up.
use nodare_db_dev.Prelude.{
  Bool, Bytes, ap, arith, false, if◌then◌else◌, refl, suc, sym, ℕ, ◌+◌, ◌<◌, ◌^◌, ◌∙◌, ◌≡◌, ◌≢◌,
}
use nodare_db_dev.Client.LoadTest.{count_key}
use nodare_db_dev.Client.LoadTest.Checked.{IsMapServer, count_key-numbers}
use nodare_db_dev.Client.LoadTest.Rounds.{count_key-round}
use nodare_db_dev.Client.Workers.{Flags, Outside, Program, exits, pair_of}
use nodare_db_dev.Client.Workers.Runs.{Runs, Turn, most_turns, new_program, step_program}
use nodare_db_dev.Client.Workers.Stored.{Distinct, IsRange}
use nodare_db_dev.Client.Workers.Stored.Reached.{step_program-safe}

module _ {W : Type 0} (out : Outside W) (flags : Flags) where
  open flags use {items, rounds, startint, randomize}

  takes_else : (b : Bool) (x y : Bytes × Bytes) → b ≡ false → (if b then x else y) ≡ y
  takes_else b x y e = rw e refl

  pair_of-counts :
      (r i : ℕ) → randomize ≡ false → (pair_of out flags r i).0 ≡ count_key (startint + i) r
  unfolding pair_of
  pair_of-counts r i in_order =
      ap (λ (p : Bytes × Bytes). p.0)
        (takes_else randomize _ (count_key (startint + i) r, _) in_order)

  pub count_test-Distinct :
      randomize ≡ false → startint + items < 2 ^ 63 → rounds < 2 ^ 63 → Distinct out flags
  count_test-Distinct in_order small few r i r' i' (least, most, less) (least', most', less') e =
      let keys : count_key (startint + i) r ≡ count_key (startint + i') r' =
        sym (pair_of-counts r i in_order) ∙ (e ∙ pair_of-counts r' i' in_order) in
      let number =
        count_key-numbers (startint + i) (startint + i') r r' (omega (arith, small, less))
          (omega (arith, small, less')) keys in
      (
        count_key-round (startint + i) r r' (omega (arith, few, most)) (omega (arith, few, most'))
            (keys ∙ ap (λ n. count_key n r') (sym number)),
        omega (arith, number),
      )

  -- In the mode with keys that count up, with `startint + items` and the rounds below 2 ^ 63, at least
  -- one round, and against a server that keeps a map of words and has room for as many sets as a run
  -- has steps: no step of the load test ends the process, in
  -- whatever order the steps come.
  pub count_test-safe :
      (w : W) (p : Program W) (t : Turn)
      → (serves : IsMapServer out.calls) → serves.HasRoom (suc (most_turns flags)) w
      → IsRange out.range_of
      → randomize ≡ false
      → startint + items < 2 ^ 63
      → rounds < 2 ^ 63
      → 0 < rounds
      → Runs out flags (new_program out flags w) p
      → step_program out flags t p ≢ exits
  count_test-safe w p t serves room ranges in_order small few some_round run =
      step_program-safe out flags
        (record {
          serves = serves;
          ranges = ranges;
          distinct = count_test-Distinct in_order small few;
          bytes_in = λ random r i k. absurd (cc);
          fits = λ random. absurd (cc);
        })
        w p t some_round room run
