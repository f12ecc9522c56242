-- ===== src/Server/Shutdown.antt =====
-- main.go, server/factory.go, server/web-server.go and `CloseSocket` of server/socket.go: the shutdown.
-- `stop_chan` has room for one item, which each goroutine that waits takes and puts back. The
-- shutdown of the `net/http` server is taken as successful: an error of it ends the process.
pub mod Passing
pub mod Ends
use nodare_db_dev.Prelude.{Bool, Option, false, if◌then◌else◌, none, not, some, true, ℕ, ◌==◌, ◌≡◌}

-- Where a goroutine stands: at the receive, after it, before the send, and at its end.
pub data Stage : Type 0 where
  listening shutting passing finished : Stage

-- What the goroutines share: whether the channel has its item, what is open, and the counter of
-- the `sync.WaitGroup` of the main program. The calls take copies of it, and count on these.
pub record Process : Type 0 where
  pub token : Bool
  pub http_up : Bool
  pub https_up : Bool
  pub unix_up : Bool
  pub path_there : Bool
  pub main_count : ℕ

-- A receive waits for an item, and a send for room: `none` is a step that has to wait.
abbrev pub receive : Process → Option (Stage × Process)
receive p = if p.token then some (shutting, record p { token = false }) else none

abbrev pub push_back : Process → Option (Stage × Process)
push_back p = if p.token then none else some (finished, record p { token = true })

-- `HttpServer.Start` from its receive on, with `HttpServer.Stop`.
unfoldable pub http_start : Stage → Process → Option (Stage × Process)
http_start listening p = receive p
http_start shutting p = some (passing, record p { http_up = false })
http_start passing p = push_back p
http_start finished p = none

-- `HttpsServer.Start` from its receive on, with `HttpsServer.Stop`.
unfoldable pub https_start : Stage → Process → Option (Stage × Process)
https_start listening p = receive p
https_start shutting p = some (passing, record p { https_up = false })
https_start passing p = push_back p
https_start finished p = none

-- `CloseSocket`, which also removes the file of the socket.
unfoldable pub close_socket : Stage → Process → Option (Stage × Process)
close_socket listening p = receive p
close_socket shutting p = some (passing, record p { unix_up = false; path_there = false })
close_socket passing p = push_back p
close_socket finished p = none

-- The main program: before the signal, at `wg.Wait()`, and at its end, which ends the process.
pub data MainStage : Type 0 where
  serving at_wait ended_main : MainStage

unfoldable pub main_step : MainStage → Process → Option (MainStage × Process)
main_step serving p = if p.token then none else some (at_wait, record p { token = true })
main_step at_wait p = if p.main_count == 0 then some (ended_main, p) else none
main_step ended_main p = none

-- `tls` is the setting by which `NewNDBServer` chooses the web server, and `unix` is none where no
-- path is set.
pub record World : Type 0 where
  pub tls : Bool
  pub web : Stage
  pub unix : Option Stage
  pub main : MainStage
  pub process : Process

-- `NewNDBServer`'s choice of the server.
unfoldable pub web_start : Bool → Stage → Process → Option (Stage × Process)
web_start false s p = http_start s p
web_start true s p = https_start s p

pub data Actor : Type 0 where
  web_actor unix_actor main_actor : Actor

abbrev pub put_web : World → Option (Stage × Process) → Option World
put_web w none = none
put_web w (some (s, p)) = some (record w { web = s; process = p })

abbrev pub put_unix : World → Option (Stage × Process) → Option World
put_unix w none = none
put_unix w (some (s, p)) = some (record w { unix = some s; process = p })

abbrev pub put_main : World → Option (MainStage × Process) → Option World
put_main w none = none
put_main w (some (s, p)) = some (record w { main = s; process = p })

abbrev pub close_unix : Option Stage → Process → Option (Stage × Process)
close_unix none p = none
close_unix (some s) p = close_socket s p

abbrev pub step_alive : Actor → World → Option World
step_alive web_actor w = put_web w (web_start w.tls w.web w.process)
step_alive unix_actor w = put_unix w (close_unix w.unix w.process)
step_alive main_actor w = put_main w (main_step w.main w.process)

abbrev pub has_ended : MainStage → Bool
has_ended serving = false
has_ended at_wait = false
has_ended ended_main = true

-- The end of the main program ends every goroutine.
unfoldable pub step_world : Actor → World → Option World
step_world a w = if has_ended w.main then none else step_alive a w

-- The program when its servers are up; `has_path` is whether a path for the socket is set.
unfoldable pub new_world : Bool → Bool → World
new_world tls has_path = record {
  tls = tls;
  web = listening;
  unix = if has_path then some listening else none;
  main = serving;
  process = record {
    token = false;
    http_up = not tls;
    https_up = tls;
    unix_up = has_path;
    path_there = has_path;
    main_count = 0;
  };
}

-- Some steps from one world to another, the last step last.
pub data Reaches : World → World → Type 0 where
  here : (w : World) → Reaches w w
  next_step : (w u v : World) (a : Actor) → Reaches w u → step_world a u ≡ some v → Reaches w v
