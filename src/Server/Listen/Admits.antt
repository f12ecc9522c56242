-- ===== src/Server/Listen/Admits.antt =====
-- server/socket.go: which connections the listeners hand to a session.
use nodare_db_dev.Prelude.{
  All, Bool-cases, List, Returns, [], false, inl, inr, refl, true, ℕ, ◌∷◌, ◌≡◌, ◌⊎◌,
}
use nodare_db_dev.Server.Access.{Acl, is_allowed}
use nodare_db_dev.Server.Listen.{
  Accepted, Cli, Listener, Phase, RemoteAddr, Sockets, Threads, accept_error, counting,
  get_remote_ip, incoming, listener_closed, new_cli_of, returned, run_schedule, start_threads,
  starting, step, step_thread, take_tcp, take_unix, tcp_listener, tls_listener, unix_listener,
  waiting,
}

abbrev Passes : Acl → Listener → RemoteAddr → Type 0
Passes m unix_listener a = Unit
Passes m tcp_listener a = is_allowed m (get_remote_ip a) ≡ true
Passes m tls_listener a = is_allowed m (get_remote_ip a) ≡ true

abbrev PhasePasses : Acl → Listener → Phase → Type 0
PhasePasses m l waiting = Unit
PhasePasses m l (counting a) = Passes m l a
PhasePasses m l (starting a) = Passes m l a
PhasePasses m l returned = Unit

-- A session of the Unix socket, or one whose address the access list allows.
abbrev pub IsAdmitted : Acl → Cli → Type 0
IsAdmitted m c = (c.socket ≡ true) ⊎ (is_allowed m (get_remote_ip c.conn) ≡ true)

abbrev pub IsRefused : Acl → RemoteAddr → Type 0
IsRefused m a = is_allowed m (get_remote_ip a) ≡ false

abbrev Keeps : Acl → Sockets → Type 0
Keeps m s = (s.acl ≡ m) × All (IsAdmitted m) s.started × All (IsRefused m) s.refused

abbrev Guarded : Acl → Threads → Type 0
Guarded m t =
    PhasePasses m unix_listener t.unix_phase
    × PhasePasses m tcp_listener t.tcp_phase
    × PhasePasses m tls_listener t.tls_phase
    × Keeps m t.sockets

-- A step in which `Accept` does not fail, but on the Unix socket.
abbrev pub IsClean : Listener × Accepted → Type 0
IsClean (unix_listener, got) = Unit
IsClean (tcp_listener, incoming a) = Unit
IsClean (tls_listener, incoming a) = Unit
IsClean (l, got) = ⊥

take_tcp-Keeps :
    (m : Acl) (a : RemoteAddr) (s : Sockets)
    → Keeps m s
    → Returns (take_tcp (incoming a) s) λ p. PhasePasses m tcp_listener p.0 × Keeps m p.1
unfolding take_tcp
take_tcp-Keeps m a s (same, ins, outs) = elim (Bool-cases (is_allowed s.acl (get_remote_ip a))) [
  | inl e ↦ rw e (_, refl, (rw same at e, (same, ins, outs)))
  | inr e ↦ rw e (_, refl, (tt, (same, ins, (rw same at e, outs))))
]

take_unix-Keeps :
    (m : Acl) (got : Accepted) (s : Sockets)
    → Keeps m s
    → Returns (take_unix got s) λ p. PhasePasses m unix_listener p.0 × Keeps m p.1
unfolding take_unix
take_unix-Keeps m (incoming a) s k = (_, refl, (tt, k))
take_unix-Keeps m listener_closed s k = (_, refl, (tt, k))
take_unix-Keeps m accept_error s k = (_, refl, (tt, k))

new_cli_of-IsAdmitted :
    (m : Acl) (l : Listener) (a : RemoteAddr) (n : ℕ)
    → Passes m l a
    → IsAdmitted m (new_cli_of l a n)
new_cli_of-IsAdmitted m unix_listener a n pass = inl refl
new_cli_of-IsAdmitted m tcp_listener a n pass = inr pass
new_cli_of-IsAdmitted m tls_listener a n pass = inr pass

step-Keeps :
    (m : Acl) (l : Listener) (got : Accepted) (p : Phase) (s : Sockets)
    → IsClean (l, got)
    → PhasePasses m l p
    → Keeps m s
    → Returns (step l got p s) λ r. PhasePasses m l r.0 × Keeps m r.1
unfolding step
step-Keeps m l got (counting a) s clean pass k = (_, refl, (pass, k))
step-Keeps m l got (starting a) s clean pass (same, ins, outs) =
    (_, refl, (tt, (same, (new_cli_of-IsAdmitted m l a s.id pass, ins), outs)))
step-Keeps m l got returned s clean pass k = (_, refl, (tt, k))
step-Keeps m unix_listener got waiting s clean pass k = take_unix-Keeps m got s k
step-Keeps m tcp_listener (incoming a) waiting s clean pass k = take_tcp-Keeps m a s k
step-Keeps m tls_listener (incoming a) waiting s clean pass k = take_tcp-Keeps m a s k
step-Keeps m tcp_listener listener_closed waiting s clean pass k = absurd clean
step-Keeps m tls_listener listener_closed waiting s clean pass k = absurd clean
step-Keeps m tcp_listener accept_error waiting s clean pass k = absurd clean
step-Keeps m tls_listener accept_error waiting s clean pass k = absurd clean

step_thread-Guarded :
    (m : Acl) (l : Listener) (got : Accepted) (t : Threads)
    → IsClean (l, got)
    → Guarded m t
    → Returns (step_thread l got t) (Guarded m)
unfolding step_thread
step_thread-Guarded m unix_listener got t clean (u, c, s, k) =
    let (r, run, (pass, k')) = step-Keeps m unix_listener got t.unix_phase t.sockets clean u k in
    rw run (_, refl, (pass, c, s, k'))
step_thread-Guarded m tcp_listener got t clean (u, c, s, k) =
    let (r, run, (pass, k')) = step-Keeps m tcp_listener got t.tcp_phase t.sockets clean c k in
    rw run (_, refl, (u, pass, s, k'))
step_thread-Guarded m tls_listener got t clean (u, c, s, k) =
    let (r, run, (pass, k')) = step-Keeps m tls_listener got t.tls_phase t.sockets clean s k in
    rw run (_, refl, (u, c, pass, k'))

run_schedule-Guarded :
    (m : Acl) (steps : List (Listener × Accepted)) (t : Threads)
    → All IsClean steps
    → Guarded m t
    → Returns (run_schedule steps t) (Guarded m)
unfolding run_schedule
run_schedule-Guarded m [] t clean g = (t, refl, g)
run_schedule-Guarded m ((l, got) ∷ steps) t clean g =
    let (t', run, g') = step_thread-Guarded m l got t clean.0 g in
    rw run (run_schedule-Guarded m steps t' clean.1 g')

-- For every order of the steps of the three listeners in which `Accept` fails at most on the Unix
-- socket, the listeners run without a panic, keep the access list, start sessions only on the
-- Unix socket or for an address that the list allows, and close only connections whose address it
-- does not allow.
pub run_schedule-admits :
    (m : Acl) (steps : List (Listener × Accepted))
    → All IsClean steps
    → Returns (run_schedule steps (start_threads m)) λ t.
      (t.sockets.acl ≡ m)
      × All (IsAdmitted m) t.sockets.started
      × All (IsRefused m) t.sockets.refused
unfolding start_threads
run_schedule-admits m steps clean =
    let (t, run, g) =
      run_schedule-Guarded m steps (start_threads m) clean (tt, tt, tt, (refl, tt, tt)) in
    (t, run, g.3)
