-- ===== src/Client/LoadTest/Checked.antt =====
-- client/main.go: a check finds what the insertions of the same round wrote.
use nodare_db_dev.Prelude.{
  ==_iff, All, Bool-cases, Bytes, Option, Returns, [], ap, arith, bytes_eq, bytes_eq_refl,
  bytes_eq_sound, false, if◌then◌else◌, inl, inr, refl, some, suc, sym, true, zero, ℕ, ◌++◌, ◌+◌,
  ◌<◌, ◌==◌, ◌>>=◌, ◌^◌, ◌∙◌, ◌∷◌, ◌≡◌, ◌≢◌, ◌≤◌,
}
use nodare_db_dev.Client.LoadTest.{Calls, check_round, count_key, count_val, insert_round}
use nodare_db_dev.Client.LoadTest.Words.{IsWord, count_key-IsWord, count_val-IsWord}
use nodare_db_dev.Server.Profile.{print_digits}
use nodare_db_dev.Server.Profile.Print.{All-print_digits, str2int-print_digits}
use nodare_db_dev.Server.Shutdown.Passing.{left}
use nodare_db_dev.Utils.{str2int}

-- A server that keeps a map of words: while it has room for another set, a set is seen by every
-- later get, and a get changes nothing. `HasRoom n w` says that the server in the state `w` is in
-- order and has room for `n` sets.
pub record IsMapServer {W : Type 0} (calls : Calls W) : Type 1 where
  pub view_of : W → Bytes → Option Bytes
  pub HasRoom : ℕ → W → Type 0
  pub less_room : (n : ℕ) (w : W) → HasRoom (suc n) w → HasRoom n w
  pub sets :
      (n : ℕ) (w : W) (k v : Bytes)
      → IsWord k
      → IsWord v
      → HasRoom (suc n) w
      → (w' : W) × (calls.call_set w k v ≡ some w')
        × ((q : Bytes) → view_of w' q ≡ (if bytes_eq k q then some v else view_of w q))
        × HasRoom n w'
  pub gets :
      (n : ℕ) (w : W) (k v : Bytes)
      → IsWord k
      → IsWord v
      → HasRoom n w
      → view_of w k ≡ some v
      → (w' : W) × (calls.call_get w k ≡ some (w', v, true))
        × ((q : Bytes) → view_of w' q ≡ view_of w q)
        × HasRoom n w'

unfoldable until_mark : Bytes → Bytes
until_mark [] = []
until_mark (c ∷ s) = if c == 95 then [] else c ∷ until_mark s

until_mark-append : (s t : Bytes) → All (λ c. (c == 95) ≡ false) s → until_mark (s ++ 95 ∷ t) ≡ s
unfolding until_mark
until_mark-append [] t all = refl
until_mark-append (c ∷ s) t all = rw (all.0) (ap (λ x. c ∷ x) (until_mark-append s t all.1))

no_mark : (m : ℕ) → m < 10 → (48 + m == 95) ≡ false
no_mark m lt = ground (arith, lt)

until_mark-count_key : (start r : ℕ) → until_mark (count_key start r) ≡ print_digits 20 start []
unfolding count_key
until_mark-count_key start r =
    until_mark-append (print_digits 20 start []) _
      (All-print_digits (λ c. (c == 95) ≡ false) 20 start [] no_mark tt)

-- The keys of two numbers differ, whatever the rounds.
pub count_key-numbers :
    (i j r r' : ℕ) → i < 2 ^ 63 → j < 2 ^ 63 → count_key i r ≡ count_key j r' → i ≡ j
count_key-numbers i j r r' small small' e =
    sym (str2int-print_digits i small)
    ∙ ap str2int (sym (until_mark-count_key i r) ∙ (ap until_mark e ∙ until_mark-count_key j r'))
    ∙ str2int-print_digits j small'

other_key :
    (i j r : ℕ) → i < 2 ^ 63 → j < 2 ^ 63 → i ≢ j → bytes_eq (count_key i r) (count_key j r) ≡ false
other_key i j r small small' ne = elim (Bool-cases (bytes_eq (count_key i r) (count_key j r))) [
  | inl e ↦ absurd (ne (count_key-numbers i j r r small small' (bytes_eq_sound _ _ e)))
  | inr e ↦ e
]

module _ {W : Type 0} (calls : Calls W) (server : IsMapServer calls) where
  -- The server has the items of a round from `start` on.
  abbrev Holds : ℕ → ℕ → ℕ → W → Type 0
  Holds items start r w =
      (i : ℕ)
      → start ≤ i
      → i < start + items
      → server.view_of w (count_key i r) ≡ some (count_val i r)

  insert_round-Holds :
      (items start r : ℕ) (w : W)
      → start + items < 2 ^ 63
      → server.HasRoom items w
      → Returns (insert_round calls items start r w) λ w'.
        Holds items start r w'
        × server.HasRoom 0 w'
        × ((q : Bytes)
            → ((i : ℕ) → start ≤ i → i < start + items → bytes_eq (count_key i r) q ≡ false)
            → server.view_of w' q ≡ server.view_of w q)
  unfolding insert_round
  insert_round-Holds zero start r w small room =
      (w, refl, (λ i lo hi. absurd (omega (arith, lo, hi)), room, λ q away. refl))
  insert_round-Holds (suc items) start r w small room =
      let (w1, run, seen, room') =
        server.sets items w (count_key start r) (count_val start r) (count_key-IsWord start r)
          (count_val-IsWord start r) room in
      let (w2, more, (holds, left, kept)) =
        insert_round-Holds items (start + 1) r w1 (omega (arith, small)) room' in
      let here : server.view_of w2 (count_key start r) ≡ some (count_val start r) =
        kept (count_key start r) (λ i lo hi.
          other_key i start r (omega (arith, hi, small)) (omega (arith, small))
            (λ e. absurd (omega (arith, lo, e))))
        ∙ (seen (count_key start r) ∙ rw (bytes_eq_refl (count_key start r)) refl) in
      rw (insert_round, run, more)
        (
          w2,
          refl,
          (
            λ i lo hi. elim (Bool-cases (i == start)) [
              | inl e ↦ let same = (==_iff i start).0 e in rw same here
              | inr e ↦ holds i (ground (arith, lo, e)) (omega (arith, hi))
            ],
            left,
            λ q away.
                kept q (λ i lo hi. away i (omega (arith, lo)) (omega (arith, hi)))
                ∙ (seen q ∙ rw (away start (omega arith) (omega arith)) refl),
          ),
        )

  check_round-counts :
      (items start r : ℕ) (w : W)
      → Holds items start r w
      → server.HasRoom 0 w
      → Returns (check_round calls items start r w) λ p. p.1 ≡ items
  unfolding check_round
  check_round-counts zero start r w holds room = (_, refl, refl)
  check_round-counts (suc items) start r w holds room =
      let (w1, run, same, room') =
        server.gets 0 w (count_key start r) (count_val start r) (count_key-IsWord start r)
          (count_val-IsWord start r) room (holds start (omega arith) (omega arith)) in
      let (p, more, counted) =
        check_round-counts items (start + 1) r w1
          (λ i lo hi. same (count_key i r) ∙ holds i (omega (arith, lo)) (omega (arith, hi)))
          room' in
      rw (run, bytes_eq_refl (count_val start r), more) (_, refl, omega (arith, counted))

  -- Against a server that keeps a map of words and has room for the items, with numbers below
  -- 2 ^ 63: the insertions of a round and
  -- then its check return, without an error, and every item is checked.
  pub insert_round-check_round :
      (items start r : ℕ) (w : W)
      → start + items < 2 ^ 63
      → server.HasRoom items w
      → Returns
          (insert_round calls items start r w >>= check_round calls items start r)
          λ p. p.1 ≡ items
  insert_round-check_round items start r w small room =
      let (w', run, (holds, left, kept)) = insert_round-Holds items start r w small room in
      rw run (check_round-counts items start r w' holds left)
