-- ===== src/Client/Workers/Stored/Steps.antt =====
-- client/main.go: a step of a worker, by what it knows of the server.
use nodare_db_dev.Prelude.{
  All, All-snoc, Bool, Bool-cases, List, [], arith, false, inl, inr, length, ltb, refl, set, suc,
  true, ℕ, ◌==◌, ◌∷◌,
}
use nodare_db_dev.Client.Workers.{
  Channels, Flags, Job, Outside, Send, Spot, after_send, at_check, at_dial, at_lock, at_pool,
  at_return, at_sends, at_set, checking, gave_up, inserting, put_send, send_get_done, send_int,
  send_map, send_set_done, start_spot, worker_done, worker_step,
}
use nodare_db_dev.Client.Workers.Stored.{IsUsual, MapHolds, SendHolds, WorkerHolds}
use nodare_db_dev.Client.Workers.Stored.Items.{IfSafe, StepHolds, check_step-holds, set_step-holds}
use nodare_db_dev.Server.Shutdown.Passing.{left}

module _ {W : Type 0} (out : Outside W) (flags : Flags) (usual : IsUsual out flags) where
  open flags use {rounds}

  abbrev Knows : W → Job → Spot → Type 0
  Knows = WorkerHolds out flags usual

  start_spot-holds :
      (w : W) (job : Job) → Knows w job at_dial → Knows w job (start_spot out flags job)
  start_spot-holds w (inserting r) (least, most) =
      ((least, most, omega arith), λ i less. absurd (omega (arith, less)), λ e. (tt, refl))
  start_spot-holds w (checking ps) all = (all, omega arith)

  -- The sends that are left, of either job.
  put_send-holds :
      (n_room : ℕ) (job : Job) (s : Send) (rest : List Send) (c : Channels W)
      → usual.serves.HasRoom n_room c.server
      → All (MapHolds out flags usual c.server) c.maps
      → SendHolds out flags usual c.server s
      → Knows c.server job (at_sends rest)
      → IfSafe
          (StepHolds out flags usual n_room c.server job)
          (after_send out flags rest (put_send out flags s c))
  unfolding put_send
  put_send-holds n_room job (send_map m) rest c has_room maps (e, holds) knows =
      elim (Bool-cases (ltb (length c.maps) rounds)) [
        | inl room ↦ rw room (has_room, knows, λ p settled. settled, All-snoc _ c.maps m maps holds)
        | inr full ↦ rw full tt
      ]
  put_send-holds n_room job send_set_done rest c has_room maps holds knows =
      elim (Bool-cases (ltb c.set_done rounds)) [
        | inl room ↦ rw room (has_room, knows, λ p settled. settled, maps)
        | inr full ↦ rw full tt
      ]
  put_send-holds n_room job send_get_done rest c has_room maps holds knows =
      elim (Bool-cases (ltb c.get_done rounds)) [
        | inl room ↦ rw room (has_room, knows, λ p settled. settled, maps)
        | inr full ↦ rw full tt
      ]
  put_send-holds n_room job (send_int n) rest c has_room maps holds knows =
      elim (Bool-cases (ltb (length c.ints) rounds)) [
        | inl room ↦ rw room (has_room, knows, λ p settled. settled, maps)
        | inr full ↦ rw full tt
      ]

  -- What a worker without a connection knows, and one that is about to send.
  lock-pool : (w : W) (job : Job) → Knows w job at_lock → Knows w job at_pool
  lock-pool w (inserting r) knows = knows
  lock-pool w (checking ps) knows = knows

  pool-dial : (w : W) (job : Job) → Knows w job at_pool → Knows w job at_dial
  pool-dial w (inserting r) knows = knows
  pool-dial w (checking ps) knows = knows

  dial-gave_up : (w : W) (job : Job) → Knows w job at_dial → Knows w job gave_up
  dial-gave_up w (inserting r) knows = knows
  dial-gave_up w (checking ps) knows = tt

  return-sends :
      (w : W) (job : Job) (sends : List Send)
      → Knows w job (at_return sends)
      → Knows w job (at_sends sends)
  return-sends w (inserting r) sends knows = knows
  return-sends w (checking ps) sends knows = knows

  pub sends-rest :
      (w : W) (job : Job) (s : Send) (rest : List Send)
      → Knows w job (at_sends (s ∷ rest))
      → SendHolds out flags usual w s × Knows w job (at_sends rest)
  sends-rest w (inserting r) s rest (set, (holds, all)) = (holds, (set, all))
  sends-rest w (checking ps) s rest (holds, all) = (holds, all)

  sends-done : (w : W) (job : Job) → Knows w job (at_sends []) → Knows w job worker_done
  sends-done w (inserting r) (set, all) = set
  sends-done w (checking ps) all = tt

  pub worker_step-holds :
      (room : ℕ) (dialled : Bool) (job : Job) (s : Spot) (c : Channels W)
      → usual.serves.HasRoom (suc room) c.server
      → All (MapHolds out flags usual c.server) c.maps
      → WorkerHolds out flags usual c.server job s
      → IfSafe (StepHolds out flags usual room c.server job) (worker_step out flags dialled job s c)
  unfolding worker_step
  worker_step-holds room dialled job at_lock c has_room maps knows =
      elim (Bool-cases (ltb c.par flags.parallel)) [
        | inl e ↦ rw e (
          usual.serves.less_room room c.server has_room,
          lock-pool c.server job knows,
          λ p settled. settled,
          maps,
        )
        | inr e ↦ rw e tt
      ]
  worker_step-holds room dialled job at_pool c has_room maps knows =
      elim (Bool-cases (c.cli == 0)) [
        | inl e ↦ rw e (
            (
              usual.serves.less_room room c.server has_room,
              pool-dial c.server job knows,
              λ p settled. settled,
              maps,
            ))
        | inr e ↦ rw e (
          usual.serves.less_room room c.server has_room,
          start_spot-holds c.server job (pool-dial c.server job knows),
          λ p settled. settled,
          maps,
        )
      ]
  worker_step-holds room true job at_dial c has_room maps knows = (
    usual.serves.less_room room c.server has_room,
    start_spot-holds c.server job knows,
    λ p settled. settled,
    maps,
  )
  worker_step-holds room false job at_dial c has_room maps knows = (
    usual.serves.less_room room c.server has_room,
    dial-gave_up c.server job knows,
    λ p settled. settled,
    maps,
  )
  worker_step-holds room dialled (inserting r) (at_set i m) c has_room maps knows =
      set_step-holds out flags usual r i room m c has_room maps knows
  worker_step-holds room dialled (checking ps) (at_set i m) c has_room maps knows = tt
  worker_step-holds room dialled (checking ps) (at_check rest n) c has_room maps knows =
      check_step-holds out flags usual ps rest n room c has_room maps knows
  worker_step-holds room dialled (inserting r) (at_check rest n) c has_room maps knows = tt
  worker_step-holds room dialled job (at_return sends) c has_room maps knows =
      elim (Bool-cases (ltb c.cli flags.parallel)) [
        | inl e ↦ rw e (
          usual.serves.less_room room c.server has_room,
          return-sends c.server job sends knows,
          λ p settled. settled,
          maps,
        )
        | inr e ↦ rw e tt
      ]
  worker_step-holds room dialled job (at_sends (s ∷ rest)) c has_room maps knows =
      let (holds, left) = sends-rest c.server job s rest knows in
      put_send-holds room job s rest c (usual.serves.less_room room c.server has_room) maps holds
        left
  worker_step-holds room dialled job (at_sends []) c has_room maps knows =
      elim (Bool-cases (c.par == 0)) [
        | inl e ↦ rw e tt
        | inr e ↦ rw e (
          usual.serves.less_room room c.server has_room,
          sends-done c.server job knows,
          λ p settled. settled,
          maps,
        )
      ]
  worker_step-holds room dialled job worker_done c has_room maps knows = tt
  worker_step-holds room dialled job gave_up c has_room maps knows = tt
