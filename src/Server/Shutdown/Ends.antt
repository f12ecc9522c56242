-- ===== src/Server/Shutdown/Ends.antt =====
-- main.go, server/web-server.go and server/socket.go: the end of the shutdown.
use nodare_db_dev.Prelude.{
  Bool, Bool-cases, Option, ap, arith, false, if◌then◌else◌, inl, inr, none, refl, some, sym, true,
  ◌+◌, ◌∙◌, ◌≡◌,
}
use nodare_db_dev.Server.Shutdown.{
  Actor, Process, Reaches, Stage, World, at_wait, close_socket, close_unix, ended_main, finished,
  has_ended, here, http_start, https_start, listening, main_actor, main_step, new_world, next_step,
  passing, push_back, put_unix, put_web, receive, shutting, step_alive, step_world, unix_actor,
  web_actor, web_start,
}
use nodare_db_dev.Server.Shutdown.Passing.{
  Reaches-kept, held, held_unix, in_channel, is_late, is_late_unix, new_world-IsOrderly, sent,
  web_up,
}

-- A goroutine that cannot move is done, or waits for the item, or for room.
abbrev Waits : Stage → Bool → Type 0
Waits listening token = token ≡ false
Waits shutting token = ⊥
Waits passing token = token ≡ true
Waits finished token = Unit

receive-Waits : (p : Process) → receive p ≡ none → p.token ≡ false
receive-Waits p e = elim (Bool-cases p.token) [
  | inl t ↦ let e' = rw t at e in absurd (cc)
  | inr t ↦ t
]

push_back-Waits : (p : Process) → push_back p ≡ none → p.token ≡ true
push_back-Waits p e = elim (Bool-cases p.token) [
  | inl t ↦ t
  | inr t ↦ let e' = rw t at e in absurd (cc)
]

web_start-Waits :
    (tls : Bool) (s : Stage) (p : Process) → web_start tls s p ≡ none → Waits s p.token
unfolding web_start http_start https_start
web_start-Waits false listening p e = receive-Waits p e
web_start-Waits true listening p e = receive-Waits p e
web_start-Waits false shutting p e = absurd (cc)
web_start-Waits true shutting p e = absurd (cc)
web_start-Waits false passing p e = push_back-Waits p e
web_start-Waits true passing p e = push_back-Waits p e
web_start-Waits false finished p e = tt
web_start-Waits true finished p e = tt

close_socket-Waits : (s : Stage) (p : Process) → close_socket s p ≡ none → Waits s p.token
unfolding close_socket
close_socket-Waits listening p e = receive-Waits p e
close_socket-Waits shutting p e = absurd (cc)
close_socket-Waits passing p e = push_back-Waits p e
close_socket-Waits finished p e = tt

abbrev WaitsUnix : Option Stage → Bool → Type 0
WaitsUnix none token = Unit
WaitsUnix (some s) token = Waits s token

close_unix-Waits : (u : Option Stage) (p : Process) → close_unix u p ≡ none → WaitsUnix u p.token
close_unix-Waits none p e = tt
close_unix-Waits (some s) p e = close_socket-Waits s p e

put_web-none : (w : World) (o : Option (Stage × Process)) → put_web w o ≡ none → o ≡ none
put_web-none w none e = refl
put_web-none w (some x) e = absurd (cc)

put_unix-none : (w : World) (o : Option (Stage × Process)) → put_unix w o ≡ none → o ≡ none
put_unix-none w none e = refl
put_unix-none w (some x) e = absurd (cc)

-- With one item among them, goroutines that wait are all at their end.
all_late :
    (s : Stage) (u : Option Stage) (token : Bool)
    → held s + held_unix u + in_channel token ≡ 1
    → Waits s token
    → WaitsUnix u token
    → (is_late s ≡ true) × (is_late_unix u ≡ true)
all_late listening u true one a b = absurd (cc)
all_late listening none false one a b = absurd (omega (arith, one))
all_late listening (some listening) false one a b = absurd (omega (arith, one))
all_late listening (some shutting) false one a b = absurd b
all_late listening (some passing) false one a b = absurd (cc)
all_late listening (some finished) false one a b = absurd (omega (arith, one))
all_late shutting u token one a b = absurd a
all_late passing u true one a b = absurd (omega (arith, one))
all_late passing u false one a b = absurd (cc)
all_late finished none token one a b = (refl, refl)
all_late finished (some listening) true one a b = absurd (cc)
all_late finished (some listening) false one a b = absurd (omega (arith, one))
all_late finished (some shutting) token one a b = absurd b
all_late finished (some passing) true one a b = absurd (omega (arith, one))
all_late finished (some passing) false one a b = absurd (cc)
all_late finished (some finished) token one a b = (refl, refl)

step_alive-none :
    (a : Actor) (w : World) → w.main ≡ at_wait → step_world a w ≡ none → step_alive a w ≡ none
unfolding step_world
step_alive-none a w e n = ap (λ m. if has_ended m then none else step_alive a w) (sym e) ∙ n

-- In a state that the program can reach, with its main goroutine at the wait after the signal:
-- where neither the web server's goroutine nor the socket's can move, the web server and the
-- socket are closed and the socket's file is removed.
pub shutdown_complete :
    (tls has_path : Bool) (w : World)
    → Reaches (new_world tls has_path) w
    → w.main ≡ at_wait
    → step_world web_actor w ≡ none
    → step_world unix_actor w ≡ none
    → (web_up tls w.process ≡ false) × (w.process.unix_up ≡ false) × (w.process.path_there ≡ false)
unfolding new_world
shutdown_complete tls has_path w run e web_stuck unix_stuck =
    let (order, less, same) = Reaches-kept run (new_world-IsOrderly tls has_path) in
    let (web_late, unix_late) =
      all_late w.web w.unix w.process.token (order.items ∙ ap sent e)
        (web_start-Waits w.tls w.web w.process
          (put_web-none w _ (step_alive-none web_actor w e web_stuck)))
        (close_unix-Waits w.unix w.process
          (put_unix-none w _ (step_alive-none unix_actor w e unix_stuck))) in
    let (socket_closed, file_gone) = order.unix_down unix_late in
    (ap (λ t. web_up t w.process) (sym same) ∙ order.web_down web_late, socket_closed, file_gone)

-- With either web server, and with or without a path for the socket, the program can reach its
-- end with the web server up and the socket as it was.
pub main_first :
    (tls has_path : Bool)
    → (w : World) × Reaches (new_world tls has_path) w
      × (w.main ≡ ended_main)
      × (web_up tls w.process ≡ true)
      × (w.process.unix_up ≡ has_path)
      × (w.process.path_there ≡ has_path)
unfolding new_world step_world main_step
main_first tls has_path = (
  record (new_world tls has_path) {
    main = ended_main;
    process = record (new_world tls has_path).process { token = true };
  },
  next_step _ _ _ main_actor (next_step _ _ _ main_actor (here _) refl) refl,
  refl,
  elim tls as (λ t. web_up t (record (new_world t has_path).process { token = true }) ≡ true) [
    | true ↦ refl
    | false ↦ refl
  ],
  refl,
  refl,
)
