-- ===== src/Client.antt =====
-- client/clilib/client.go: the socket requests, the table of clients, and the escapes.
pub mod Wire
pub mod Escape
pub mod Http
pub mod Served
pub mod Connect
pub mod Numbers
pub mod Reach
pub mod LoadTest
pub mod Workers
use nodare_db_dev.Prelude.{
  Bool, Bool-cases, Bytes, List, Option, Returns, Run, [], ap, arith, false, fault, get_or,
  get_or-replicate, if◌then◌else◌, index_out_of_range, inl, inr, length, length-replicate, ltb,
  ltb→lt, none, ok, refl, replicate, some, suc, true, zero, ℕ, ◌&&◌, ◌*◌, ◌++◌, ◌<◌, ◌==◌, ◌>>=◌,
  ◌∷◌, ◌≡◌, ◌≤◌,
}
use nodare_db_dev.Server.Session.{bar, crlf, etb, magic_d, magic_g, magic_s, nul}

-- The requests that `SOCK_Set`, `SOCK_Get` and `SOCK_Del` write.
unfoldable pub set_text : Bytes → Bytes → Bytes
set_text key val = (magic_s ∷ bar ∷ 49 ∷ crlf) ++ (key ++ (crlf ++ (val ++ (crlf ++ (etb ∷ crlf)))))

unfoldable pub get_text : Bytes → Bytes
get_text key = (magic_g ∷ bar ∷ 49 ∷ crlf) ++ (key ++ (crlf ++ (etb ∷ crlf)))

unfoldable pub del_text : Bytes → Bytes
del_text key = (magic_d ∷ bar ∷ 49 ∷ crlf) ++ (key ++ (crlf ++ (etb ∷ crlf)))

-- What the caller's pointers hold: `resp`, `nfk` and `found`.
pub record Results : Type 0 where
  pub resp : Bytes
  pub nfk : Bytes
  pub found : Bool

-- `exchange request` is the reply's line, or `none` with no connection, or where the write or the read fails. The result
-- `none` is an error; a reply that is not ACK is logged, and handed over.
module _ (exchange : Bytes → Option Bytes) where
  abbrev accept_set : Option Bytes → Results → Option Results
  accept_set none out = none
  accept_set (some []) out = none
  accept_set (some (c ∷ reply)) out = some (record out { resp = c ∷ reply })

  unfoldable pub sock_set : Bytes → Bytes → Results → Option Results
  sock_set key val out = accept_set (exchange (set_text key val)) out

  -- `has_nfk` says that the caller passed a pointer for the key that was not found.
  abbrev accept_get : Bool → Option Bytes → Results → Option Results
  accept_get has_nfk none out = none
  accept_get has_nfk (some []) out = some out
  accept_get has_nfk (some (c ∷ reply)) out =
      if c == nul && (has_nfk && ltb 1 (length (c ∷ reply)))
      then some (record out { found = false; nfk = reply })
      else some (record out { found = true; resp = c ∷ reply })

  unfoldable pub sock_get : Bool → Bytes → Results → Option Results
  sock_get has_nfk key out = accept_get has_nfk (exchange (get_text key)) out

  abbrev accept_del : Bool → Option Bytes → Results → Option Results
  accept_del has_nfk none out = none
  accept_del has_nfk (some []) out = some out
  accept_del has_nfk (some (c ∷ reply)) out =
      if c == nul && (has_nfk && ltb 1 (length (c ∷ reply)))
      then some (record out { nfk = reply })
      else some (record out { resp = c ∷ reply })

  unfoldable pub sock_del : Bool → Bytes → Results → Option Results
  sock_del has_nfk key out = accept_del has_nfk (exchange (del_text key)) out

  -- A reply of NUL alone, which the server sends for one key that it has not, is handed to the
  -- caller of `SOCK_Get` as a value that was found, whether or not a pointer for the key was
  -- passed.
  pub sock_get-nul :
      (has_nfk : Bool) (key : Bytes) (out : Results)
      → exchange (get_text key) ≡ some (nul ∷ [])
      → sock_get has_nfk key out ≡ some (record out { found = true; resp = nul ∷ [] })
  unfolding sock_get
  sock_get-nul true key out e = rw e refl
  sock_get-nul false key out e = rw e refl

-- `CliHandler`: a slice of client pointers, of length `slots`, and the next client's number.
pub record CliHandler {ℓ} (A : Type ℓ) : Type ℓ where
  pub clients : List (Option A)
  pub slots : ℕ
  pub id : ℕ

-- The copy of the old slice's clients to the start of the new one, which panics past its end.
unfoldable pub copy_clients {ℓ} :
    {A : Type ℓ} → List (Option A) → List (Option A) → Run (List (Option A))
copy_clients [] new = ok new
copy_clients (none ∷ cs) [] = copy_clients cs []
copy_clients (some c ∷ cs) [] = fault index_out_of_range
copy_clients (none ∷ cs) (n ∷ ns) = do rest ← copy_clients cs ns; ok (n ∷ rest)
copy_clients (some c ∷ cs) (n ∷ ns) = do rest ← copy_clients cs ns; ok (some c ∷ rest)

unfoldable pub expand_slice {ℓ} : {A : Type ℓ} → CliHandler A → Run (CliHandler A)
expand_slice h = if ltb h.id h.slots then ok h else (do
  new ← copy_clients h.clients (replicate (h.slots * 2) none)
  ok (record h { clients = new; slots = h.slots * 2 }))

get_or_cons {ℓ} :
    {A : Type ℓ} (c : Option A) (new cs : List (Option A))
    → ((i : ℕ) → get_or new i none ≡ get_or cs i none)
    → (i : ℕ) → get_or (c ∷ new) i none ≡ get_or (c ∷ cs) i none
unfolding get_or
get_or_cons c new cs same zero = refl
get_or_cons c new cs same (suc i) = same i

pub copy_clients-room {ℓ} :
    {A : Type ℓ} (cs : List (Option A)) (n : ℕ)
    → length cs ≤ n
    → Returns
        (copy_clients cs (replicate n none))
        λ new. (length new ≡ n) × ((i : ℕ) → get_or new i none ≡ get_or cs i none)
unfolding copy_clients get_or replicate
copy_clients-room [] n le =
    (replicate n none, refl, (length-replicate n none, λ i. get_or-replicate n i none))
copy_clients-room (c ∷ cs) zero le = absurd (omega arith)
copy_clients-room (none ∷ cs) (suc n) le =
    let (new, run, (width, same)) = copy_clients-room cs n (omega arith) in
    rw run (none ∷ new, refl, (ap suc width, get_or_cons none new cs same))
copy_clients-room (some c ∷ cs) (suc n) le =
    let (new, run, (width, same)) = copy_clients-room cs n (omega arith) in
    rw run (some c ∷ new, refl, (ap suc width, get_or_cons (some c) new cs same))

-- On a handler whose slice has as many items as `slots`, not 0, and whose `id` is at most
-- `slots`, `expandSlice` returns: the slice is as long as `slots`, `id` is as before and now
-- below `slots`, and every client is where it was.
pub expand_slice-room {ℓ} :
    {A : Type ℓ} (h : CliHandler A)
    → length h.clients ≡ h.slots
    → 0 < h.slots
    → h.id ≤ h.slots
    → Returns (expand_slice h) λ g.
      (length g.clients ≡ g.slots)
      × (g.id < g.slots)
      × (g.id ≡ h.id)
      × ((i : ℕ) → get_or g.clients i none ≡ get_or h.clients i none)
unfolding expand_slice
expand_slice-room h width pos le = elim (Bool-cases (ltb h.id h.slots)) [
  | inl e ↦ rw e (h, refl, (width, ltb→lt h.id h.slots e, refl, λ i. refl))
  | inr e ↦
      let (new, run, (wide, same)) = copy_clients-room h.clients (h.slots * 2) (omega arith) in
      rw (e, run) (_, refl, (wide, omega arith, refl, same))
]
