-- ===== src/Server/Shutdown/Passing.antt =====
-- main.go, server/web-server.go and server/socket.go: one goroutine shuts down at a time.
use nodare_db_dev.Prelude.{
  ==_iff, Bool, Bool-cases, Option, ap, arith, false, inl, inr, none, refl, some, true, ℕ, ◌+◌, ◌∙◌,
  ◌≡◌, ◌≤◌,
}
use nodare_db_dev.Database.Entry.{count}
use nodare_db_dev.Server.Shutdown.{
  Actor, MainStage, Process, Reaches, Stage, World, at_wait, close_socket, close_unix, ended_main,
  finished, has_ended, here, http_start, https_start, listening, main_actor, main_step, new_world,
  next_step, passing, put_main, put_unix, put_web, serving, shutting, step_alive, step_world,
  unix_actor, web_actor, web_start,
}

abbrev pub held : Stage → ℕ
held listening = 0
held shutting = 1
held passing = 1
held finished = 0

abbrev pub held_unix : Option Stage → ℕ
held_unix none = 0
held_unix (some s) = held s

abbrev pub in_channel : Bool → ℕ
in_channel true = 1
in_channel false = 0

abbrev pub sent : MainStage → ℕ
sent serving = 0
sent at_wait = 1
sent ended_main = 1

-- The steps that are left to a goroutine.
abbrev pub left : Stage → ℕ
left listening = 3
left shutting = 2
left passing = 1
left finished = 0

abbrev pub left_unix : Option Stage → ℕ
left_unix none = 0
left_unix (some s) = left s

abbrev pub left_main : MainStage → ℕ
left_main serving = 2
left_main at_wait = 1
left_main ended_main = 0

abbrev pub steps_left : World → ℕ
steps_left w = left w.web + left_unix w.unix + left_main w.main

abbrev pub is_late : Stage → Bool
is_late listening = false
is_late shutting = false
is_late passing = true
is_late finished = true

-- The web server that runs, and the one that does not.
abbrev pub web_up : Bool → Process → Bool
web_up false p = p.http_up
web_up true p = p.https_up

abbrev Every {ℓ} : {A : Type ℓ} → (A → Type 0) → Option A → Type 0
Every P none = Unit
Every P (some a) = P a

Every-some {ℓ} : {A : Type ℓ} (P : A → Type 0) (o : Option A) (a : A) → Every P o → o ≡ some a → P a
Every-some P o a every e = rw e at every

-- A step of the web server's goroutine leaves the item where it is or passes it on.
abbrev WebStep : Bool → Stage → Process → Stage × Process → Type 0
WebStep tls s p (s', p') =
    (held s' + in_channel p'.token ≡ held s + in_channel p.token)
    × (left s ≡ left s' + 1)
    × (p'.main_count ≡ p.main_count)
    × (p'.unix_up ≡ p.unix_up)
    × (p'.path_there ≡ p.path_there)
    × ((is_late s ≡ true → web_up tls p ≡ false) → is_late s' ≡ true → web_up tls p' ≡ false)

web_start-WebStep :
    (tls : Bool) (s : Stage) (p : Process) → Every (WebStep tls s p) (web_start tls s p)
unfolding web_start http_start https_start
web_start-WebStep false listening p = elim (Bool-cases p.token) [
  | inl e ↦ rw e (refl, refl, refl, refl, refl, λ d l. absurd (cc))
  | inr e ↦ rw e tt
]
web_start-WebStep true listening p = elim (Bool-cases p.token) [
  | inl e ↦ rw e (refl, refl, refl, refl, refl, λ d l. absurd (cc))
  | inr e ↦ rw e tt
]
web_start-WebStep false shutting p = (refl, refl, refl, refl, refl, λ d l. refl)
web_start-WebStep true shutting p = (refl, refl, refl, refl, refl, λ d l. refl)
web_start-WebStep false passing p = elim (Bool-cases p.token) [
  | inl e ↦ rw e tt
  | inr e ↦ rw e (refl, refl, refl, refl, refl, λ d l. d refl)
]
web_start-WebStep true passing p = elim (Bool-cases p.token) [
  | inl e ↦ rw e tt
  | inr e ↦ rw e (refl, refl, refl, refl, refl, λ d l. d refl)
]
web_start-WebStep false finished p = tt
web_start-WebStep true finished p = tt

abbrev UnixStep : Stage → Process → Stage × Process → Type 0
UnixStep s p (s', p') =
    (held s' + in_channel p'.token ≡ held s + in_channel p.token)
    × (left s ≡ left s' + 1)
    × (p'.main_count ≡ p.main_count)
    × (p'.http_up ≡ p.http_up)
    × (p'.https_up ≡ p.https_up)
    × ((is_late s ≡ true → (p.unix_up ≡ false) × (p.path_there ≡ false))
        → is_late s' ≡ true
        → (p'.unix_up ≡ false) × (p'.path_there ≡ false))

close_socket-UnixStep : (s : Stage) (p : Process) → Every (UnixStep s p) (close_socket s p)
unfolding close_socket
close_socket-UnixStep listening p = elim (Bool-cases p.token) [
  | inl e ↦ rw e (refl, refl, refl, refl, refl, λ d l. absurd (cc))
  | inr e ↦ rw e tt
]
close_socket-UnixStep shutting p = (refl, refl, refl, refl, refl, λ d l. (refl, refl))
close_socket-UnixStep passing p = elim (Bool-cases p.token) [
  | inl e ↦ rw e tt
  | inr e ↦ rw e (refl, refl, refl, refl, refl, λ d l. d refl)
]
close_socket-UnixStep finished p = tt

abbrev pub is_late_unix : Option Stage → Bool
is_late_unix none = true
is_late_unix (some s) = is_late s

-- The item is in the channel or with one goroutine once the main program sent it, and a goroutine
-- that is past its shutdown left nothing open.
pub record IsOrderly (w : World) : Type 0 where
  pub items : held w.web + held_unix w.unix + in_channel w.process.token ≡ sent w.main
  pub uncounted : w.process.main_count ≡ 0
  pub web_down : is_late w.web ≡ true → web_up w.tls w.process ≡ false
  pub unix_down :
      is_late_unix w.unix ≡ true → (w.process.unix_up ≡ false) × (w.process.path_there ≡ false)

abbrev pub WorldStep : World → World → Type 0
WorldStep w v = IsOrderly v × (steps_left w ≡ steps_left v + 1) × (v.tls ≡ w.tls)

put_web-WorldStep :
    (w : World) (o : Option (Stage × Process))
    → IsOrderly w
    → Every (WebStep w.tls w.web w.process) o
    → Every (WorldStep w) (put_web w o)
put_web-WorldStep w none v every = tt
put_web-WorldStep w (some (s, p)) v (items, less, count, up, path, down) = (
  record {
    items = omega (arith, v.items, items);
    uncounted = count ∙ v.uncounted;
    web_down = down v.web_down;
    unix_down = λ l. let (a, b) = v.unix_down l in (up ∙ a, path ∙ b);
  },
  omega (arith, less),
  refl,
)

same_web_up :
    (tls : Bool) (p q : Process)
    → p.http_up ≡ q.http_up
    → p.https_up ≡ q.https_up
    → web_up tls p ≡ web_up tls q
same_web_up false p q e f = e
same_web_up true p q e f = f

put_unix-WorldStep :
    (w : World) (s : Stage) (o : Option (Stage × Process))
    → w.unix ≡ some s
    → IsOrderly w
    → Every (UnixStep s w.process) o
    → Every (WorldStep w) (put_unix w o)
put_unix-WorldStep w s none e v every = tt
put_unix-WorldStep w s (some (s', p)) e v (items, less, count, http, https, down) = (
  record {
    items = omega (arith, v.items, items, ap held_unix e);
    uncounted = count ∙ v.uncounted;
    web_down = λ l. same_web_up w.tls p w.process http https ∙ v.web_down l;
    unix_down = down (λ l. v.unix_down (ap is_late_unix e ∙ l));
  },
  omega (arith, less, ap left_unix e),
  refl,
)

main_step-WorldStep :
    (w : World) (m : MainStage)
    → w.main ≡ m
    → IsOrderly w
    → Every (WorldStep w) (put_main w (main_step m w.process))
unfolding main_step
main_step-WorldStep w serving e v = elim (Bool-cases w.process.token) [
  | inl t ↦ rw t tt
  | inr t ↦ rw t (
    record {
      items = omega (arith, v.items, ap sent e, ap in_channel t);
      uncounted = v.uncounted;
      web_down = λ l. same_web_up w.tls _ w.process refl refl ∙ v.web_down l;
      unix_down = v.unix_down;
    },
    omega (arith, ap left_main e),
    refl,
  )
]
main_step-WorldStep w at_wait e v = rw ((==_iff w.process.main_count 0).1 v.uncounted) (
  record {
    items = v.items ∙ ap sent e;
    uncounted = v.uncounted;
    web_down = v.web_down;
    unix_down = v.unix_down;
  },
  omega (arith, ap left_main e),
  refl,
)
main_step-WorldStep w ended_main e v = tt

unix_step-WorldStep :
    (w : World) (u : Option Stage)
    → w.unix ≡ u
    → IsOrderly w
    → Every (WorldStep w) (put_unix w (close_unix u w.process))
unix_step-WorldStep w none e v = tt
unix_step-WorldStep w (some s) e v =
    put_unix-WorldStep w s _ e v (close_socket-UnixStep s w.process)

step_world-WorldStep : (a : Actor) (w : World) → IsOrderly w → Every (WorldStep w) (step_world a w)
unfolding step_world
step_world-WorldStep a w v = elim (Bool-cases (has_ended w.main)) [
  | inl e ↦ rw e tt
  | inr e ↦ rw e (step_alive-WorldStep a)
]
  where
    step_alive-WorldStep : (b : Actor) → Every (WorldStep w) (step_alive b w)
    step_alive-WorldStep web_actor =
        put_web-WorldStep w _ v (web_start-WebStep w.tls w.web w.process)
    step_alive-WorldStep unix_actor = unix_step-WorldStep w w.unix refl v
    step_alive-WorldStep main_actor = main_step-WorldStep w w.main refl v

-- A step of any goroutine keeps the order, and is one less that is left.
pub step_world-orderly :
    (a : Actor) (w v : World) → IsOrderly w → step_world a w ≡ some v → WorldStep w v
step_world-orderly a w v order e =
    Every-some (WorldStep w) (step_world a w) v (step_world-WorldStep a w order) e

pub new_world-IsOrderly : (tls has_path : Bool) → IsOrderly (new_world tls has_path)
unfolding new_world
new_world-IsOrderly tls true = record {
  items = refl;
  uncounted = refl;
  web_down = λ l. absurd (cc);
  unix_down = λ l. absurd (cc);
}
new_world-IsOrderly tls false = record {
  items = refl;
  uncounted = refl;
  web_down = λ l. absurd (cc);
  unix_down = λ l. (refl, refl);
}

-- What is kept along a run: the order, the number of steps, and the choice of the web server.
pub Reaches-kept :
    {w v : World}
    → Reaches w v
    → IsOrderly w
    → IsOrderly v × (steps_left v ≤ steps_left w) × (v.tls ≡ w.tls)
Reaches-kept (here w) order = (order, omega arith, refl)
Reaches-kept (next_step w u v a before e) order =
    let (order', less, same) = Reaches-kept before order in
    let (order'', fewer, same') = step_world-orderly a u v order' e in
    (order'', omega (arith, less, fewer), same' ∙ same)
