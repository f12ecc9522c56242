-- ===== src/Client/Numbers.antt =====
-- client/clilib/client.go, `NewCli`: the numbers of the clients are their places in the slice.
use nodare_db_dev.Prelude.{
  ==_iff, ==_refl, Bool-cases, List, Option, Returns, [], arith, false, get_or, get_or-set, inl,
  inr, length, length-set, ltb, ltb→lt, lt→ltb, none, ok, refl, set, some, suc, zero, ℕ, ◌*◌, ◌+◌,
  ◌<◌, ◌==◌, ◌∙◌, ◌∷◌, ◌≡◌, ◌≤◌,
}
use nodare_db_dev.Client.{CliHandler, copy_clients-room, expand_slice}
use nodare_db_dev.Client.Connect.{Client, Options, linked, new_cli_handler, put_at, take_client}

put_at-inside :
    {A : Type 0} (cs : List A) (i : ℕ) (c : A) → i < length cs → put_at cs i c ≡ ok (set cs i c)
unfolding put_at
put_at-inside cs i c lt = rw (lt→ltb i (length cs) lt) refl

module _ {C : Type 0} where
  -- The slice has room for the next client, and the places from 1 to `id`, and no other, hold a
  -- client, which has its place as its number.
  pub record IsHandler (h : CliHandler (Client C)) : Type 0 where
    room : h.id < h.slots
    wide : h.slots ≤ length h.clients
    narrow : length h.clients ≤ h.slots * 2
    unused : get_or h.clients 0 none ≡ none
    free : (i : ℕ) → h.id < i → get_or h.clients i none ≡ none
    numbered :
        (i : ℕ)
        → 0 < i
        → i ≤ h.id
        → (c : Client C) × (get_or h.clients i none ≡ some c) × (c.id ≡ i)

  no_client : (i : ℕ) → get_or {A = Option (Client C)} (none ∷ none ∷ []) i none ≡ none
  unfolding get_or
  no_client zero = refl
  no_client (suc zero) = refl
  no_client (suc (suc i)) = refl

  -- A new handler has no clients, and room for one.
  pub new_cli_handler-IsHandler : IsHandler new_cli_handler
  unfolding new_cli_handler get_or
  new_cli_handler-IsHandler = record {
    room = omega arith;
    wide = omega arith;
    narrow = omega arith;
    unused = refl;
    free = λ i lt. no_client i;
    numbered = λ i pos le. absurd (omega arith);
  }

  expand_slice-wide :
      (h : CliHandler (Client C))
      → 0 < h.slots
      → h.id ≤ h.slots
      → h.slots ≤ length h.clients
      → length h.clients ≤ h.slots * 2
      → Returns (expand_slice h) λ g.
        (g.slots ≤ length g.clients)
        × (length g.clients ≤ g.slots * 2)
        × (g.id < g.slots)
        × (g.id ≡ h.id)
        × ((i : ℕ) → get_or g.clients i none ≡ get_or h.clients i none)
  unfolding expand_slice
  expand_slice-wide h pos le wide narrow = elim (Bool-cases (ltb h.id h.slots)) [
    | inl e ↦ rw e (h, refl, (wide, narrow, ltb→lt h.id h.slots e, refl, λ i. refl))
    | inr e ↦
        let (new, run, (width, same)) = copy_clients-room h.clients (h.slots * 2) narrow in
        rw (e, run) (_, refl, (omega arith, omega arith, omega arith, refl, same))
  ]

  -- The handler `g` has one client more than `h`, `c`, in the next place and with its number.
  pub record Gains (h g : CliHandler (Client C)) (c : Client C) : Type 0 where
    next : g.id ≡ h.id + 1
    number : c.id ≡ h.id + 1
    stored_at : get_or g.clients (h.id + 1) none ≡ some c
    others : (i : ℕ) → (i == h.id + 1) ≡ false → get_or g.clients i none ≡ get_or h.clients i none

  Gains-IsHandler :
      (h g : CliHandler (Client C)) (c : Client C)
      → IsHandler h
      → Gains h g c
      → g.id < g.slots
      → g.slots ≤ length g.clients
      → length g.clients ≤ g.slots * 2
      → IsHandler g
  Gains-IsHandler h g c v w room wide narrow = record {
    room = room;
    wide = wide;
    narrow = narrow;
    unused = w.others 0 (ground arith) ∙ v.unused;
    free = λ i lt. w.others i (ground (arith, w.next)) ∙ v.free i (omega (arith, w.next));
    numbered = λ i pos le. elim (Bool-cases (i == h.id + 1)) [
      | inl e ↦ let same = (==_iff i (h.id + 1)).0 e in rw same (c, w.stored_at, w.number)
      | inr e ↦
          let (d, at_i, num) = v.numbered i pos (ground (arith, e, le, w.next)) in
          (d, w.others i e ∙ at_i, num)
    ];
  }

  stored-Gains :
      (h g : CliHandler (Client C)) (c : Client C)
      → g.id ≡ h.id + 1
      → c.id ≡ h.id + 1
      → g.id < length g.clients
      → ((i : ℕ) → get_or g.clients i none ≡ get_or h.clients i none)
      → Gains h (record g { clients = set g.clients g.id (some c) }) c
  stored-Gains h g c next number inside same = record {
    next = next;
    number = number;
    stored_at =
        get_or-set g.clients g.id (h.id + 1) (some c) none inside
        ∙ rw (next, ==_refl (h.id + 1)) refl;
    others =
        λ i ne. get_or-set g.clients g.id i (some c) none inside ∙ ground (arith, ne, next, same i);
  }

  pub take_linked :
      (h : CliHandler (Client C)) (opts : Options) (c : Client C)
      → IsHandler h
      → Returns (take_client h opts c linked) λ p.
        IsHandler p.0
        × Gains h p.0 (record c { id = h.id + 1 })
        × (p.2 ≡ some (record c { id = h.id + 1 }))
  unfolding take_client
  take_linked h opts c v =
      let (g, run, (wide, narrow, room, next, same)) =
        expand_slice-wide (record h { id = h.id + 1 }) (omega (arith, v.room))
          (omega (arith, v.room)) v.wide v.narrow in
      let d : Client C = record c { id = h.id + 1 } in
      let inside : g.id < length g.clients = omega (arith, room, wide) in
      let gains = stored-Gains h g d next refl inside same in
      let sized = length-set g.clients g.id (some d) in
      rw (run, put_at-inside g.clients g.id (some d) inside)
        (
          _,
          refl,
          (
            Gains-IsHandler h _ d v gains room (omega (arith, wide, sized))
                (omega (arith, narrow, sized)),
            gains,
            refl,
          ),
        )
