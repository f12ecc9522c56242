-- ===== src/Client/Workers/Counts.antt =====
-- client/main.go: what the workers of the load test hold and owe, counted over all of them.
use nodare_db_dev.Prelude.{
  List, [], ap, arith, refl, set, some, suc, zero, ℕ, ◌++◌, ◌+◌, ◌∷◌, ◌≡◌, ◌≤◌,
}
use nodare_db_dev.Client.Workers.{
  Job, Send, Spot, Worker, at_check, at_dial, at_lock, at_pool, at_return, at_sends, at_set,
  checking, gave_up, inserting, send_get_done, send_int, send_map, send_set_done, worker_done,
}
use nodare_db_dev.Client.Workers.Runs.{worker_at}

abbrev pub sum {ℓ} : {A : Type ℓ} → (A → ℕ) → List A → ℕ
sum f [] = 0
sum f (x ∷ xs) = f x + sum f xs

pub sum-append {ℓ} :
    {A : Type ℓ} (f : A → ℕ) (xs ys : List A) → sum f (xs ++ ys) ≡ sum f xs + sum f ys
sum-append f [] ys = omega arith
sum-append f (x ∷ xs) ys = omega (arith, sum-append f xs ys)

pub sum-snoc {ℓ} :
    {A : Type ℓ} (f : A → ℕ) (xs : List A) (y : A) → sum f (xs ++ y ∷ []) ≡ sum f xs + f y
sum-snoc f xs y = omega (arith, sum-append f xs (y ∷ []))

pub sum-set :
    (f : Worker → ℕ) (ws : List Worker) (n : ℕ) (w v : Worker)
    → worker_at n ws ≡ some w
    → sum f (set ws n v) + f w ≡ sum f ws + f v
unfolding worker_at
sum-set f [] n w v e = absurd (cc)
sum-set f (x ∷ ws) zero w v e = let same : x ≡ w = cc in omega (arith, ap f same)
sum-set f (x ∷ ws) (suc n) w v e = omega (arith, sum-set f ws n w v e)

pub sum-at :
    (f : Worker → ℕ) (ws : List Worker) (n : ℕ) (w : Worker)
    → worker_at n ws ≡ some w
    → f w ≤ sum f ws
unfolding worker_at
sum-at f [] n w e = absurd (cc)
sum-at f (x ∷ ws) zero w e = let same : x ≡ w = cc in omega (arith, ap f same)
sum-at f (x ∷ ws) (suc n) w e = omega (arith, sum-at f ws n w e)

pub sum-add {ℓ} :
    {A : Type ℓ} (f g h : A → ℕ) (xs : List A)
    → ((x : A) → f x ≡ g x + h x)
    → sum f xs ≡ sum g xs + sum h xs
sum-add f g h [] e = refl
sum-add f g h (x ∷ xs) e = omega (arith, e x, sum-add f g h xs e)

-- Whether a worker has its item in `parChan`, whether it has or makes a connection, and whether it
-- has the one and not the other.
abbrev pub holds_lock : Spot → ℕ
holds_lock at_lock = 0
holds_lock worker_done = 0
holds_lock at_pool = 1
holds_lock at_dial = 1
holds_lock (at_set i m) = 1
holds_lock (at_check ps c) = 1
holds_lock (at_return sends) = 1
holds_lock (at_sends sends) = 1
holds_lock gave_up = 1

abbrev pub holds_conn : Spot → ℕ
holds_conn at_lock = 0
holds_conn worker_done = 0
holds_conn at_pool = 0
holds_conn at_dial = 1
holds_conn (at_set i m) = 1
holds_conn (at_check ps c) = 1
holds_conn (at_return sends) = 1
holds_conn (at_sends sends) = 0
holds_conn gave_up = 0

abbrev pub lock_only : Spot → ℕ
lock_only at_pool = 1
lock_only (at_sends sends) = 1
lock_only gave_up = 1
lock_only at_lock = 0
lock_only worker_done = 0
lock_only at_dial = 0
lock_only (at_set i m) = 0
lock_only (at_check ps c) = 0
lock_only (at_return sends) = 0

pub holds_lock-split : (s : Spot) → holds_lock s ≡ holds_conn s + lock_only s
holds_lock-split at_lock = refl
holds_lock-split at_pool = refl
holds_lock-split at_dial = refl
holds_lock-split (at_set i m) = refl
holds_lock-split (at_check ps c) = refl
holds_lock-split (at_return sends) = refl
holds_lock-split (at_sends sends) = refl
holds_lock-split worker_done = refl
holds_lock-split gave_up = refl

-- What a worker is still to send: by its job until its loop ends, and then by its list.
abbrev pub owes : (Send → ℕ) → (Job → ℕ) → Job → Spot → ℕ
owes f b job (at_return sends) = sum f sends
owes f b job (at_sends sends) = sum f sends
owes f b job worker_done = 0
owes f b job at_lock = b job
owes f b job at_pool = b job
owes f b job at_dial = b job
owes f b job (at_set i m) = b job
owes f b job (at_check ps c) = b job
owes f b job gave_up = b job

abbrev pub is_insert : Job → ℕ
is_insert (inserting r) = 1
is_insert (checking ps) = 0

abbrev pub is_check : Job → ℕ
is_check (inserting r) = 0
is_check (checking ps) = 1

abbrev pub is_map : Send → ℕ
is_map (send_map m) = 1
is_map send_set_done = 0
is_map send_get_done = 0
is_map (send_int n) = 0

abbrev pub is_set_done : Send → ℕ
is_set_done (send_map m) = 0
is_set_done send_set_done = 1
is_set_done send_get_done = 0
is_set_done (send_int n) = 0

abbrev pub is_get_done : Send → ℕ
is_get_done (send_map m) = 0
is_get_done send_set_done = 0
is_get_done send_get_done = 1
is_get_done (send_int n) = 0

abbrev pub is_int : Send → ℕ
is_int (send_map m) = 0
is_int send_set_done = 0
is_int send_get_done = 0
is_int (send_int n) = 1

abbrev pub over : (Job → Spot → ℕ) → Worker → ℕ
over f w = f w.job w.spot

abbrev pub locks_held : List Worker → ℕ
locks_held = sum (over (λ job s. holds_lock s))

abbrev pub conns_held : List Worker → ℕ
conns_held = sum (over (λ job s. holds_conn s))

abbrev pub owed_by : (Send → ℕ) → (Job → ℕ) → List Worker → ℕ
owed_by f b = sum (over (owes f b))
