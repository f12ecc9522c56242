-- ===== src/Server/Listen/Races.antt =====
-- server/socket.go: the counter that the listeners share.
use nodare_db_dev.Prelude.{Returns, [], refl, ◌∷◌, ◌≡◌}
use nodare_db_dev.Server.Listen.{
  Accepted, Cli, RemoteAddr, Threads, counting, run_schedule, step, step_thread, tcp_listener,
  tls_listener,
}

-- Where the TCP and the TLS listener have a connection each and have not raised the counter yet,
-- the order in which both raise it before either reads it starts two sessions with the same
-- number.
pub run_schedule-same_number :
    (t : Threads) (a b : RemoteAddr) (got : Accepted)
    → t.tcp_phase ≡ counting a
    → t.tls_phase ≡ counting b
    → Returns
        (run_schedule
          ((tcp_listener, got)
            ∷ (tls_listener, got)
            ∷ (tcp_listener, got)
            ∷ (tls_listener, got)
            ∷ [])
          t)
        λ u.
          (c d : Cli) × (u.sockets.started ≡ d ∷ c ∷ t.sockets.started)
          × (c.conn ≡ a)
          × (d.conn ≡ b)
          × (c.id ≡ d.id)
unfolding run_schedule step_thread step
run_schedule-same_number t a b got tcp tls = rw (tcp, tls) (_, refl, (_, _, refl, refl, refl, refl))
