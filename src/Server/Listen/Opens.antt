-- ===== src/Server/Listen/Opens.antt =====
-- server/socket.go, `NewSocketHandler` and `Start`: which of the three listeners are opened. Their
-- goroutines open them in any order; `net.Listen`, which may depend on the sockets that the program
-- has opened before, and the load of the certificate are parameters, and an error of either ends the
-- process.
use nodare_db_dev.Prelude.{
  Bool, Bool-cases, Bytes, List, Option, Returns, Run, [], bytes_eq, exit, false, fault,
  if◌then◌else◌, inl, inr, none, not, ok, refl, some, true, ◌&&◌, ◌++◌, ◌>>=◌, ◌||◌, ◌∷◌, ◌≡◌, ◌⊎◌,
}
use nodare_db_dev.Server.Listen.{Listener, tcp_listener, tls_listener, unix_listener}
use nodare_db_dev.Server.Session.{can}

-- The settings that `NewSocketHandler` reads.
pub record SocketSettings : Type 0 where
  pub host : Bytes
  pub tcpport : Bytes
  pub tlsport : Bytes
  pub socket_file : Bytes
  pub tlscrt : Bytes
  pub tlskey : Bytes
  pub tlsenabled : Bool

-- `host + ":" + port`.
abbrev pub listen_address : Bytes → Bytes → Bytes
listen_address host port = host ++ 58 ∷ port

abbrev pub listener_eq : Listener → Listener → Bool
listener_eq unix_listener unix_listener = true
listener_eq tcp_listener tcp_listener = true
listener_eq tls_listener tls_listener = true
listener_eq _ _ = false

-- The listener is among those that are still to open.
abbrev pub IsDue : Listener → List Listener → Type 0
IsDue l [] = ⊥
IsDue l (k ∷ order) = (listener_eq k l ≡ true) ⊎ IsDue l order

pub listener_eq_sound : (k l : Listener) → listener_eq k l ≡ true → k ≡ l
listener_eq_sound unix_listener unix_listener e = refl
listener_eq_sound tcp_listener tcp_listener e = refl
listener_eq_sound tls_listener tls_listener e = refl
listener_eq_sound unix_listener tcp_listener e = absurd (cc)
listener_eq_sound unix_listener tls_listener e = absurd (cc)
listener_eq_sound tcp_listener unix_listener e = absurd (cc)
listener_eq_sound tcp_listener tls_listener e = absurd (cc)
listener_eq_sound tls_listener unix_listener e = absurd (cc)
listener_eq_sound tls_listener tcp_listener e = absurd (cc)

-- A socket that is open: whether it is a Unix socket, and its address.
abbrev pub Place : Type 0
Place = Bool × Bytes

-- `listens open_now place` is whether `net.Listen` succeeds at the place with these sockets open.
module _ (listens : List Place → Place → Bool) (loads : Bytes → Bytes → Bool) where
  unfoldable pub listen_on : List Place → Place → Run (Option Place)
  listen_on open_now place = if listens open_now place then ok (some place) else fault exit

  unfoldable pub open_unix : List Place → Bytes → Run (Option Place)
  open_unix open_now path = if bytes_eq path [] then ok none else listen_on open_now (true, path)

  unfoldable pub open_tcp : List Place → Bytes → Run (Option Place)
  open_tcp open_now address =
      if bytes_eq address [] then ok none else listen_on open_now (false, address)

  unfoldable pub open_tls : List Place → Bytes → Bytes → Bytes → Bool → Run (Option Place)
  open_tls open_now address crt key enabled =
      if bytes_eq address [] || not enabled
      then ok none
      else if loads crt key
      then listen_on open_now (false, address)
      else fault exit

  -- The goroutine of a listener, up to its loop: the place that it listens at, if any.
  unfoldable pub open_listener : List Place → SocketSettings → Listener → Run (Option Place)
  open_listener open_now s unix_listener = open_unix open_now s.socket_file
  open_listener open_now s tcp_listener = open_tcp open_now (listen_address s.host s.tcpport)
  open_listener open_now s tls_listener =
      open_tls open_now (listen_address s.host s.tlsport) s.tlscrt s.tlskey s.tlsenabled

  -- One more socket that is open.
  abbrev pub with_place : Option Place → List Place → List Place
  with_place none open_now = open_now
  with_place (some place) open_now = place ∷ open_now

  -- The goroutines in the order in which they open: the place of each listener.
  unfoldable pub open_listeners :
      SocketSettings
      → List Listener
      → List Place
      → (Listener → Option Place)
      → Run (Listener → Option Place)
  open_listeners s [] open_now up = ok up
  open_listeners s (l ∷ order) open_now up = do
    place ← open_listener open_now s l
    open_listeners s order (with_place place open_now)
        (λ k. if listener_eq l k then place else up k)

  -- What the settings ask for: the path, host and port with a colon between them, and the port of
  -- TLS where that is enabled.
  abbrev pub wanted : SocketSettings → Listener → Option Place
  wanted s unix_listener = if bytes_eq s.socket_file [] then none else some (true, s.socket_file)
  wanted s tcp_listener = some (false, s.host ++ 58 ∷ s.tcpport)
  wanted s tls_listener = if s.tlsenabled then some (false, s.host ++ 58 ∷ s.tlsport) else none

  -- Whether that can be had with these sockets open.
  abbrev pub can_open : List Place → SocketSettings → Listener → Bool
  can_open open_now s unix_listener =
      bytes_eq s.socket_file [] || listens open_now (true, s.socket_file)
  can_open open_now s tcp_listener = listens open_now (false, s.host ++ 58 ∷ s.tcpport)
  can_open open_now s tls_listener =
      not s.tlsenabled
      || (loads s.tlscrt s.tlskey && listens open_now (false, s.host ++ 58 ∷ s.tlsport))

  -- Each listener of the order can be had with what the ones before it have taken.
  unfoldable pub can_all : SocketSettings → List Listener → List Place → Bool
  can_all s [] open_now = true
  can_all s (l ∷ order) open_now =
      can_open open_now s l && can_all s order (with_place (wanted s l) open_now)

  address-nonempty : (host port : Bytes) → bytes_eq (listen_address host port) [] ≡ false
  unfolding bytes_eq
  address-nonempty [] port = refl
  address-nonempty (c ∷ host) port = refl

  -- A goroutine opens what is asked for, or ends the process.
  abbrev Outcome : List Place → SocketSettings → Listener → Type 0
  Outcome open_now s l =
      ((open_listener open_now s l ≡ ok (wanted s l)) × (can_open open_now s l ≡ true))
      ⊎ ((open_listener open_now s l ≡ fault exit) × (can_open open_now s l ≡ false))

  open_listener-Outcome : (o : List Place) (s : SocketSettings) (l : Listener) → Outcome o s l
  unfolding open_listener open_unix open_tcp open_tls listen_on
  open_listener-Outcome o s unix_listener = elim (Bool-cases (bytes_eq s.socket_file [])) [
    | inl e ↦ rw e (inl (refl, refl))
    | inr e ↦ rw e (elim (Bool-cases (listens o (true, s.socket_file))) [
      | inl up ↦ rw up (inl (refl, refl))
      | inr down ↦ rw down (inr (refl, refl))
    ])
  ]
  open_listener-Outcome o s tcp_listener =
      rw (address-nonempty s.host s.tcpport)
        (elim (Bool-cases (listens o (false, listen_address s.host s.tcpport))) [
          | inl up ↦ rw up (inl (refl, refl))
          | inr down ↦ rw down (inr (refl, refl))
        ])
  open_listener-Outcome o s tls_listener = rw (address-nonempty s.host s.tlsport) (
      by_tests s.tlsenabled (loads s.tlscrt s.tlskey)
        (listens o (false, listen_address s.host s.tlsport))
        (false, listen_address s.host s.tlsport))
    where
      by_tests :
          (b c d : Bool) (a : Place)
          → (((if not b
                  then ok none
                  else if c
                  then (if d then ok (some a) else fault exit)
                  else fault exit)
                ≡ ok (if b then some a else none))
              × ((not b || (c && d)) ≡ true))
            ⊎ (((if not b
                    then ok none
                    else if c
                    then (if d then ok (some a) else fault exit)
                    else fault exit)
                  ≡ fault exit)
                × ((not b || (c && d)) ≡ false))
      by_tests false c d a = inl (refl, refl)
      by_tests true false d a = inr (refl, refl)
      by_tests true true false a = inr (refl, refl)
      by_tests true true true a = inl (refl, refl)

  -- The listeners that are open are as the settings ask for, or are still to open.
  abbrev Stands : SocketSettings → List Listener → (Listener → Option Place) → Type 0
  Stands s order up = (l : Listener) → (up l ≡ wanted s l) ⊎ IsDue l order

  open_all :
      (s : SocketSettings) (order : List Listener) (o : List Place) (up : Listener → Option Place)
      → Stands s order up
      → ((can_all s order o ≡ true)
          × Returns (open_listeners s order o up) λ f. (l : Listener) → f l ≡ wanted s l)
        ⊎ ((can_all s order o ≡ false) × (open_listeners s order o up ≡ fault exit))
  unfolding open_listeners can_all
  open_all s [] o up stands =
      inl (refl, (up, refl, λ l. elim (stands l) [ inl done ↦ done | inr due ↦ absurd due ]))
  open_all s (k ∷ order) o up stands = elim (open_listener-Outcome o s k) [
    | inl (run, can) ↦
        rw (run, can)
          (open_all s order (with_place (wanted s k) o)
            (λ l. if listener_eq k l then wanted s k else up l)
            λ l. elim (Bool-cases (listener_eq k l)) [
              | inl same ↦ let it = listener_eq_sound k l same in inl (rw (same, it) refl)
              | inr other ↦ elim (stands l) [
                | inl done ↦ inl (rw other done)
                | inr due ↦ elim due [ inl hit ↦ absurd (cc) | inr later ↦ inr later ]
              ]
            ])
    | inr (run, cannot) ↦ inr (rw cannot refl, rw run refl)
  ]

  -- In whatever order the goroutines of the three listeners open them, each at least once: if
  -- each can be opened with what is open at its turn, they all open, and the Unix socket listens
  -- on its path if that is not empty, the TCP listener on host and port with a colon between
  -- them, and the TLS listener on the same with its own port if TLS is enabled; else the process
  -- ends.
  pub open_listeners-outcome :
      (s : SocketSettings) (order : List Listener)
      → ((l : Listener) → IsDue l order)
      → ((can_all s order [] ≡ true)
          × Returns
              (open_listeners s order [] (λ l. none))
              λ up. (l : Listener) → up l ≡ wanted s l)
        ⊎ ((can_all s order [] ≡ false) × (open_listeners s order [] (λ l. none) ≡ fault exit))
  open_listeners-outcome s order every = open_all s order [] (λ l. none) (λ l. inr (every l))
