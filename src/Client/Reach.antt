-- ===== src/Client/Reach.antt =====
-- client/clilib/client.go, `NewCli`: when a new client is handed over.
use nodare_db_dev.Prelude.{
  ==_iff, Bool, Bool-cases, Bytes, Option, Returns, Run, [], ap, false, fault, if◌then◌else◌, inl,
  inr, nil_dereference, none, ok, refl, some, true, ◌==◌, ◌∙◌, ◌∷◌, ◌≡◌,
}
use nodare_db_dev.Client.{CliHandler}
use nodare_db_dev.Client.Connect.{
  Client, Options, Outcome, cli_connect, default_addr_tcp_socket, default_addr_tls_socket, detached,
  dial, dial_sock, failed, fill_addr, greet, linked, new_cli, new_client, take_client, take_sock,
  transport,
}
use nodare_db_dev.Client.Http.{is_empty}
use nodare_db_dev.Client.Numbers.{Gains, IsHandler, take_linked}

abbrev or_default : Bytes → Bytes → Bytes
or_default addr other = if is_empty addr then other else addr

fill_addr-addr : (opts : Options) → fill_addr opts ≡ record opts { addr = (fill_addr opts).addr }
unfolding fill_addr
fill_addr-addr opts = elim (Bool-cases (is_empty opts.addr)) [
  | inr e ↦ rw e refl
  | inl e ↦ elim (Bool-cases (opts.mode == 1)) [
    | inl one ↦ rw (e, one) refl
    | inr one ↦ elim (Bool-cases (opts.mode == 2)) [
      | inl two ↦ rw (e, one, two) refl
      | inr two ↦ rw (e, one, two) refl
    ]
  ]
]

default-full :
    (addr : Bytes) (ssl : Bool)
    → is_empty (or_default addr (if ssl then default_addr_tls_socket else default_addr_tcp_socket))
      ≡ false
default-full [] true = refl
default-full [] false = refl
default-full (c ∷ addr) ssl = refl

fill_addr-socket :
    (opts : Options)
    → opts.mode ≡ 2
    → (fill_addr opts).addr
      ≡ or_default opts.addr (if opts.ssl then default_addr_tls_socket else default_addr_tcp_socket)
unfolding fill_addr
fill_addr-socket opts two = elim (Bool-cases (is_empty opts.addr)) [
  | inr e ↦ rw e refl
  | inl e ↦ rw (e, two) refl
]

-- What `NewCli` gives back: the handler as it was and an error; a panic, for a client that runs in
-- the background; or the new client, which the handler has gained.
abbrev pub Handed :
    {C : Type 0}
    → CliHandler (Client C)
    → Options
    → Outcome
    → Run (CliHandler (Client C) × Options × Option (Client C))
    → Type 0
Handed h opts failed run = run ≡ ok (h, opts, none)
Handed h opts detached run = run ≡ fault nil_dereference
Handed {C} h opts linked run =
    Returns run λ p. IsHandler p.0 × ((c : Client C) × (p.2 ≡ some c) × Gains h p.0 c)

take_client-Handed :
    {C : Type 0} (h : CliHandler (Client C)) (opts : Options) (c : Client C)
    → IsHandler h
    → (o : Outcome) → Handed h opts o (take_client h opts c o)
unfolding take_client
take_client-Handed h opts c v failed = refl
take_client-Handed h opts c v detached = refl
take_client-Handed h opts c v linked =
    let (p, run, (v', gains, same)) = take_linked h opts c v in (p, run, (v', (_, same, gains)))

module _ {C : Type 0} (tcp_dial : Bytes → Option C) (tls_dial : Bool → Bytes → Option C)
    (welcomes : C → Bool) where
  -- The connection that the options ask for, in mode 2.
  abbrev target : Options → Option C
  target opts =
      if opts.ssl
      then tls_dial opts.ssl_insecure (or_default opts.addr default_addr_tls_socket)
      else tcp_dial (or_default opts.addr default_addr_tcp_socket)

  abbrev answers : Option C → Bool
  answers none = false
  answers (some conn) = welcomes conn

  -- In mode 2 the server answers the dial with a welcome; the other modes need no connection.
  unfoldable pub reaches : Options → Bool
  reaches opts = if opts.mode == 2 then answers (target opts) else true

  abbrev pub outcome : Options → Outcome
  outcome opts = if reaches opts then (if opts.daemon then detached else linked) else failed

  greet-take_sock :
      (c : Client C) (o : Option C)
      → (greet tcp_dial tls_dial welcomes (take_sock c o)).1
        ≡ (if answers o then (if c.daemon then detached else linked) else failed)
  unfolding greet
  greet-take_sock c none = refl
  greet-take_sock c (some conn) = elim (Bool-cases (welcomes conn)) [
    | inl e ↦ rw e refl
    | inr e ↦ rw e refl
  ]

  dial_sock-full :
      (c : Client C)
      → is_empty c.addr ≡ false
      → dial_sock tcp_dial tls_dial welcomes c
        ≡ take_sock c (if c.ssl then tls_dial c.insecure c.addr else tcp_dial c.addr)
  unfolding dial_sock
  dial_sock-full c full = elim (Bool-cases c.ssl) [
    | inl e ↦ rw (e, full) refl
    | inr e ↦ rw (e, full) refl
  ]

  socket_with :
      (opts : Options) (a : Bytes)
      → a
        ≡ or_default opts.addr
            (if opts.ssl then default_addr_tls_socket else default_addr_tcp_socket)
      → (greet tcp_dial tls_dial welcomes
          (dial_sock tcp_dial tls_dial welcomes (new_client (record opts { addr = a })))).1
        ≡ (if answers (target opts) then (if opts.daemon then detached else linked) else failed)
  unfolding new_client
  socket_with opts a same =
      let c : Client C = new_client (record opts { addr = a }) in
      let full : is_empty a ≡ false = ap is_empty same ∙ default-full opts.addr opts.ssl in
      ap (λ d. (greet tcp_dial tls_dial welcomes d).1) (dial_sock-full c full)
      ∙ greet-take_sock c _
      ∙ rw same (elim (Bool-cases opts.ssl) [ inl e ↦ rw e refl | inr e ↦ rw e refl ])

  connect_with :
      (opts : Options) (a : Bytes)
      → (opts.mode ≡ 2
          → a
            ≡ or_default opts.addr
                (if opts.ssl then default_addr_tls_socket else default_addr_tcp_socket))
      → (cli_connect tcp_dial tls_dial welcomes (new_client (record opts { addr = a }))).1
        ≡ outcome opts
  unfolding cli_connect new_client reaches dial dial_sock transport greet
  connect_with opts a at_two = elim (Bool-cases (opts.mode == 1)) [
    | inl e ↦ rw ((==_iff opts.mode 1).0 e) refl
    | inr e ↦ elim (Bool-cases (opts.mode == 2)) [
      | inl t ↦ rw (e, t) (socket_with opts a (at_two ((==_iff opts.mode 2).0 t)))
      | inr t ↦ rw (e, t) refl
    ]
  ]

  cli_connect-outcome :
      (opts : Options)
      → (cli_connect tcp_dial tls_dial welcomes (new_client (fill_addr opts))).1 ≡ outcome opts
  cli_connect-outcome opts =
      ap (λ o. (cli_connect tcp_dial tls_dial welcomes (new_client o)).1) (fill_addr-addr opts)
      ∙ connect_with opts (fill_addr opts).addr (fill_addr-socket opts)

  -- `NewCli` on a handler whose clients have their places as their numbers. Where the options ask
  -- for a socket and the dial fails or the server gives no welcome, it returns an error and the
  -- handler is as it was. Otherwise it panics for a client that is to run in the background; and
  -- for another one it returns the new client, which stands in the next place with that number,
  -- every other client is where it was, and the handler's clients have their places as their
  -- numbers.
  pub new_cli-Handed :
      (h : CliHandler (Client C)) (opts : Options)
      → IsHandler h
      → Handed h (fill_addr opts) (outcome opts) (new_cli tcp_dial tls_dial welcomes h opts)
  unfolding new_cli
  new_cli-Handed h opts v =
      rw (cli_connect-outcome opts) (take_client-Handed h (fill_addr opts) _ v (outcome opts))
