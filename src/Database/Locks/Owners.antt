-- ===== src/Database/Locks/Owners.antt =====
-- database/operations.go: at most one goroutine has the lock of a sub-dictionary.
use mathlib.Core.Path.{subst}
use nodare_db_dev.Prelude.{
  ==_iff, ==_refl, Bool, Bool-cases, Bytes, List, Option, [], ap, false, inl, inr, length, none,
  refl, some, sym, true, ℕ, ◌+◌, ◌==◌, ◌∙◌, ◌∷◌, ◌≡◌, ◌⊎◌,
}
use nodare_db_dev.Database.Dick.{XDick}
use nodare_db_dev.Database.Dick.Valid.{home_sub, sub_of}
use nodare_db_dev.Database.Entry.{Value}
use nodare_db_dev.Database.Locks.{
  System, Thread, holding, key_of, loaded, put, resting, written_back,
}
use nodare_db_dev.Database.Refines.{Models, Reply, Request, map_step}

-- The map after the calls that wrote.
unfoldable pub map_after : (Bytes → Option Value) → List (Request × Reply) → Bytes → Option Value
map_after f [] = f
map_after f ((r, reply) ∷ log) = (map_step (map_after f log) r).0

-- Each call was answered as the map before it answers.
abbrev pub Answers : (Bytes → Option Value) → List (Request × Reply) → Type 0
Answers f [] = Unit
Answers f ((r, reply) ∷ log) = (reply ≡ (map_step (map_after f log) r).1) × Answers f log

-- The sub-dictionary whose lock a goroutine has.
abbrev pub at_sub : Thread → Option ℕ
at_sub resting = none
at_sub (holding x r) = some x
at_sub (loaded x r s) = some x
at_sub (written_back x) = some x

some_inj : {A : Type 0} (a b : A) → some a ≡ some b → a ≡ b
some_inj a b e = cc

put-same : {A : Type 0} (f : ℕ → A) (i : ℕ) (a : A) → put f i a i ≡ a
put-same f i a = rw (==_refl i) refl

put-true : (f : ℕ → Bool) (i j : ℕ) → f j ≡ true → put f i true j ≡ true
put-true f i j e = elim (Bool-cases (i == j)) [ inl same ↦ rw same refl | inr other ↦ rw other e ]

module _ (h pcas : Bytes → ℕ) where
  abbrev pub Fits : XDick → Thread → Type 0
  Fits d resting = Unit
  Fits d (holding x r) = x ≡ home_sub pcas d (key_of r)
  Fits d (loaded x r s) = (x ≡ home_sub pcas d (key_of r)) × (s ≡ sub_of pcas d (key_of r))
  Fits d (written_back x) = Unit

  -- A goroutine with a lock is the only one with it, and what it read is what is there.
  pub record IsSystem (n : ℕ) (f : Bytes → Option Value) (w : System) : Type 0 where
    pub models : Models h pcas (n + length w.log) (map_after f w.log) w.dick
    pub answers : Answers f w.log
    pub locked : (i x : ℕ) → at_sub (w.thread i) ≡ some x → w.is_locked x ≡ true
    pub alone : (i j x : ℕ) → at_sub (w.thread i) ≡ some x → at_sub (w.thread j) ≡ some x → i ≡ j
    pub fits : (i : ℕ) → Fits w.dick (w.thread i)

  -- A new state of one goroutine that keeps its lock, with the dictionary as it was.
  pub keep_lock :
      {n : ℕ} {f : Bytes → Option Value} (w : System) (i : ℕ) (t : Thread)
      → IsSystem n f w
      → at_sub t ≡ at_sub (w.thread i)
      → Fits w.dick t
      → IsSystem n f (record w { thread = put w.thread i t })
  keep_lock w i t v same fit = record {
    models = v.models;
    answers = v.answers;
    locked = λ j x e. v.locked j x (sym (now j) ∙ e);
    alone = λ j k x e e'. v.alone j k x (sym (now j) ∙ e) (sym (now k) ∙ e');
    fits = λ j. elim (Bool-cases (i == j)) [ inl e ↦ rw e fit | inr e ↦ rw e (v.fits j) ];
  }
    where
      now : (j : ℕ) → at_sub (put w.thread i t j) ≡ at_sub (w.thread j)
      now j = elim (Bool-cases (i == j)) [
        | inl e ↦ rw e (same ∙ ap (λ k. at_sub (w.thread k)) ((==_iff i j).0 e))
        | inr e ↦ rw e refl
      ]

  -- What a goroutine has after one of them changed.
  at_put :
      (th : ℕ → Thread) (i j x : ℕ) (t : Thread)
      → at_sub (put th i t j) ≡ some x
      → (((i == j) ≡ true) × (at_sub t ≡ some x)) ⊎ (((i == j) ≡ false) × (at_sub (th j) ≡ some x))
  at_put th i j x t e = elim (Bool-cases (i == j)) [
    | inl same ↦ let e' = rw same at e in inl (same, e')
    | inr other ↦ let e' = rw other at e in inr (other, e')
  ]

  pub take_lock :
      {n : ℕ} {f : Bytes → Option Value} (w : System) (i : ℕ) (r : Request)
      → IsSystem n f w
      → w.is_locked (home_sub pcas w.dick (key_of r)) ≡ false
      → IsSystem n f (record w {
        is_locked = put w.is_locked (home_sub pcas w.dick (key_of r)) true;
        thread = put w.thread i (holding (home_sub pcas w.dick (key_of r)) r);
      })
  take_lock w i r v open_sub =
      let home = home_sub pcas w.dick (key_of r) in
      let unheld : (j : ℕ) → at_sub (w.thread j) ≡ some home → ⊥ =
        λ j e. (let l = v.locked j home e in cc) in
      record {
        models = v.models;
        answers = v.answers;
        locked = λ j x e. elim (at_put w.thread i j x (holding home r) e) [
          | inl (same, at_x) ↦
              subst (λ y. put w.is_locked home true y ≡ true) (some_inj home x at_x)
                (put-same w.is_locked home true)
          | inr (other, at_x) ↦ put-true w.is_locked home x (v.locked j x at_x)
        ];
        alone = λ j k x e e'. elim (at_put w.thread i j x (holding home r) e) [
          | inl (same, at_x) ↦ elim (at_put w.thread i k x (holding home r) e') [
            | inl (same', at_x') ↦ sym ((==_iff i j).0 same) ∙ (==_iff i k).0 same'
            | inr (other', at_x') ↦ absurd (unheld k (at_x' ∙ sym at_x))
          ]
          | inr (other, at_x) ↦ elim (at_put w.thread i k x (holding home r) e') [
            | inl (same', at_x') ↦ absurd (unheld j (at_x ∙ sym at_x'))
            | inr (other', at_x') ↦ v.alone j k x at_x at_x'
          ]
        ];
        fits = λ j. elim (Bool-cases (i == j)) [ inl e ↦ rw e refl | inr e ↦ rw e (v.fits j) ];
      }

  pub free_lock :
      {n : ℕ} {f : Bytes → Option Value} (w : System) (i x : ℕ)
      → IsSystem n f w
      → w.thread i ≡ written_back x
      → IsSystem n f
          (record w { is_locked = put w.is_locked x false; thread = put w.thread i resting })
  free_lock w i x v done = record {
    models = v.models;
    answers = v.answers;
    locked = λ j y e. elim (at_put w.thread i j y resting e) [
      | inl (same, at_y) ↦ absurd (cc)
      | inr (other, at_y) ↦ elim (Bool-cases (x == y)) [
        | inl e' ↦
            let y_too = ap at_sub done ∙ ap some ((==_iff x y).0 e') in
            let clash = (==_iff i j).1 (v.alone i j y y_too at_y) in absurd (cc)
        | inr e' ↦ rw e' (v.locked j y at_y)
      ]
    ];
    alone = λ j k y e e'. elim (at_put w.thread i j y resting e) [
      | inl (same, at_y) ↦ absurd (cc)
      | inr (other, at_y) ↦ elim (at_put w.thread i k y resting e') [
        | inl (same', at_y') ↦ absurd (cc)
        | inr (other', at_y') ↦ v.alone j k y at_y at_y'
      ]
    ];
    fits = λ j. elim (Bool-cases (i == j)) [ inl e ↦ rw e tt | inr e ↦ rw e (v.fits j) ];
  }
