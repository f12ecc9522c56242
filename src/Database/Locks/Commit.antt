-- ===== src/Database/Locks/Commit.antt =====
-- database/operations.go: the write of a call does what the method does in one step.
use mathlib.Core.Path.{subst}
use nodare_db_dev.Prelude.{
  Bytes, List, Option, Returns, Run, [], ap, fault, get_or, ok, refl, set, suc, sym, zero, ℕ, ◌+◌,
  ◌<◌, ◌>>=◌, ◌^◌, ◌∷◌, ◌≡◌,
}
use nodare_db_dev.Database.Dick.{
  XDick, del_error, dick_del, dick_get, dick_set, put_sub, sub_set, value_of,
}
use nodare_db_dev.Database.Dick.Methods.{at_home}
use nodare_db_dev.Database.Dick.Valid.{IsDick, home_sub, sub_index-home, sub_of}
use nodare_db_dev.Database.Entry.{Value}
use nodare_db_dev.Database.Locks.{key_of, sub_step}
use nodare_db_dev.Database.Refines.{
  Models, Reply, Request, del_key, dick_step, dick_step-Models, error, get_key, map_step, set_key,
  value,
}
use nodare_db_dev.Database.Sub.{del, get, new_sub_dick}
use nodare_db_dev.Database.Sub.Move.{pure_hash}

set-same : {A : Type 0} (xs : List A) (i : ℕ) (d : A) → set xs i (get_or xs i d) ≡ xs
unfolding get_or
set-same [] i d = refl
set-same (x ∷ xs) zero d = refl
set-same (x ∷ xs) (suc i) d = ap (λ t. x ∷ t) (set-same xs i d)

-- The last step of a run that returns can be taken off.
Returns-map :
    {A B : Type 0} (x : Run A) (g : A → B) (Q : B → Type 0)
    → Returns (x >>= λ a. ok (g a)) Q
    → Returns x λ a. Q (g a)
Returns-map (ok a) g Q (b, e, q) = (a, refl, subst Q (sym (ok_inj (g a) b e)) q)
  where
    ok_inj : {B : Type 0} (a b : B) → ok a ≡ ok b → a ≡ b
    ok_inj a b e = cc
Returns-map (fault why) g Q (b, e, q) = absurd (cc)

two_maps :
    {A B C D : Type 0} (x : Run A) (f : A → B) (g : B → D) (f' : A → C) (g' : C → D)
    → ((a : A) → g (f a) ≡ g' (f' a))
    → ((x >>= λ a. ok (f a)) >>= λ b. ok (g b)) ≡ ((x >>= λ a. ok (f' a)) >>= λ c. ok (g' c))
two_maps (ok a) f g f' g' same = ap ok (same a)
two_maps (fault why) f g f' g' same = refl

module _ (h pcas : Bytes → ℕ) where
  sub_step-dick_step :
      {n : ℕ} (d : XDick) (r : Request)
      → IsDick h pcas n d
      → dick_step (pure_hash h) pcas d r ≡ (
          sub_step (pure_hash h) pcas (sub_of pcas d (key_of r)) r >>= λ p.
          ok (put_sub d (home_sub pcas d (key_of r)) p.0, p.1))
  unfolding dick_step dick_get dick_set dick_del sub_step
  sub_step-dick_step d (get_key k) v =
      rw (sub_index-home h pcas d k v, at_home h pcas d k v)
        (two_maps (get (pure_hash h) (sub_of pcas d k) k) value_of (λ v'. (d, value v'))
          (λ r. (sub_of pcas d k, value (value_of r)))
          (λ p. (put_sub d (home_sub pcas d k) p.0, p.1))
          (λ r. rw (set-same d.sub_dicks (home_sub pcas d k) new_sub_dick) refl))
  sub_step-dick_step d (set_key k val) v =
      rw (sub_index-home h pcas d k v, at_home h pcas d k v)
        (two_maps (sub_set (pure_hash h) pcas (sub_of pcas d k) k val)
          (λ x. (put_sub d (home_sub pcas d k) x.0, x.1)) (λ x. (x.0, error x.1))
          (λ x. (x.0, error x.1)) (λ p. (put_sub d (home_sub pcas d k) p.0, p.1)) (λ x. refl))
  sub_step-dick_step d (del_key k) v =
      rw (sub_index-home h pcas d k v, at_home h pcas d k v)
        (two_maps (del (pure_hash h) (sub_of pcas d k) k)
          (λ x. (put_sub d (home_sub pcas d k) x.0, del_error x.1)) (λ x. (x.0, error x.1))
          (λ x. (x.0, error (del_error x.1))) (λ p. (put_sub d (home_sub pcas d k) p.0, p.1))
          (λ x. refl))

  -- The write of a call on a dictionary that models a map: it returns, and the dictionary models
  -- the map after the call.
  pub sub_step-Models :
      {n : ℕ} (f : Bytes → Option Value) (d : XDick) (r : Request)
      → Models h pcas n f d
      → n + 1 < 2 ^ 63
      → Returns (sub_step (pure_hash h) pcas (sub_of pcas d (key_of r)) r) λ p.
        Models h pcas (n + 1) (map_step f r).0 (put_sub d (home_sub pcas d (key_of r)) p.0)
        × (p.1 ≡ (map_step f r).1)
  sub_step-Models {n} f d r m small =
      Returns-map {B = XDick × Reply} (sub_step (pure_hash h) pcas (sub_of pcas d (key_of r)) r)
        (λ p. (put_sub d (home_sub pcas d (key_of r)) p.0, p.1))
        (λ p. Models h pcas (n + 1) (map_step f r).0 p.0 × (p.1 ≡ (map_step f r).1))
        (rw (sym (sub_step-dick_step d r m.valid)) (dick_step-Models h pcas f d r m small))
