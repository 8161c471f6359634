-- ===== src/Lifecycle.antt =====
-- lifecycle.go: NewServer, Run, and runAll as a step relation. The goroutines of runAll run in any
-- order: one that serves each server and, once the drain has begun, one that shuts each down. A step
-- is what one of them, or runAll itself, does at a time; when a server stops and what it returns is
-- the environment's choice. A lock around one assignment makes that assignment one step.
pub mod Counts
pub mod Invariant
pub mod Ending
mod Tests
use nitrokit.Prelude.{
  ℕ, ◌+◌, ◌*◌, ◌<◌, ◌≡◌, Bool, true, false, Option, none, some, List, [], ◌∷◌, ◌++◌, ◌⊎◌, inl, inr,
  length, get_elem?, map, pos, All,
}
use nitrokit.Text.{Text, codes}
use nitrokit.Clock.{Duration, second}

-- The fields of http.Server that the kit sets or reads; `H` is the type of handlers.
pub record HttpServer (H : Type 0) : Type 0 where
  pub addr : Text
  pub handler : H
  pub read_header_timeout : Duration
  pub read_timeout : Duration
  pub write_timeout : Duration
  pub idle_timeout : Duration
  pub tls_config : Bool

unfoldable pub new_server : {H : Type 0} → Text → H → HttpServer H
new_server addr handler = record {
  addr = addr;
  handler = handler;
  read_header_timeout = pos (5 * second);
  read_timeout = pos (15 * second);
  write_timeout = pos (30 * second);
  idle_timeout = pos (60 * second);
  tls_config = false;
}

-- How a server is started.
pub data Serve : Type 0 where
  listen_and_serve listen_and_serve_tls : Serve

-- A server with how to start it.
pub record ServerEntry (H : Type 0) : Type 0 where
  pub srv : HttpServer H
  pub serve : Serve

entry_of : {H : Type 0} → HttpServer H → ServerEntry H
entry_of srv = record {
  srv = srv;
  serve = elim srv.tls_config [ true ↦ listen_and_serve_tls | false ↦ listen_and_serve ];
}

-- The error of Run, or the entries for runAll.
unfoldable pub run : {H : Type 0} → List (HttpServer H) → Text ⊎ List (ServerEntry H)
unfolding entry_of
run [] = inl (codes "nitrokit: Run called with no servers")
run (s ∷ servers) = inr (map entry_of (s ∷ servers))

-- What serving returns: http.ErrServerClosed, or another error.
pub data Stopped : Type 0 where
  server_closed : Stopped
  failed : Text → Stopped

-- The error that is sent to `errc`, none for nil.
abbrev pub sent_error : Stopped → Option Text
sent_error server_closed = none
sent_error (failed e) = some e

-- `if err == nil { err = e }`
abbrev pub or_else : Option Text → Option Text → Option Text
or_else (some e) f = some e
or_else none f = f

-- fmt.Errorf("shutdown: %w", err), nil for nil
abbrev pub shutdown_error : Option Text → Option Text
shutdown_error none = none
shutdown_error (some e) = some (codes "shutdown: " ++ e)

-- The two goroutines of a server: whether it still serves, and whether its Shutdown has yet to
-- return (or to be called).
pub record Server : Type 0 where
  pub serving : Bool
  pub up : Bool

-- Where runAll stands, with the variables that are live there.
pub data Pc : Type 0 where
  selecting : Pc  -- at the first select
  draining : (serve_err : Option Text) (received : ℕ) → Pc  -- at wg.Wait
  collecting : (serve_err : Option Text) (received : ℕ) → Pc  -- at the head of the last loop
  returned : (result : Option Text) → Pc

-- `errc` is all that has been sent to the channel, in order: it has room for every server, and how
-- much has been received stands in `pc`. `exits` and `shutdowns` are what serving and Shutdown have
-- returned so far, in order, which the code does not keep.
pub record System : Type 0 where
  pub servers : List Server
  pub errc : List (Option Text)
  pub exits : List Stopped
  pub shutdown_err : Option Text
  pub shutdowns : List (Option Text)
  pub pc : Pc

abbrev pub IsDown : Server → Type 0
IsDown v = v.up ≡ false

pub data Step (s : System) : System → Type 0 where
  stops :
      (left : List Server) (v : Server) (right : List Server) (e : Stopped)
      → s.servers ≡ left ++ v ∷ right
      → v.serving ≡ true
      → Step s (record s {
        servers = left ++ record v { serving = false } ∷ right;
        errc = s.errc ++ sent_error e ∷ [];
        exits = s.exits ++ e ∷ [];
      })
  cancelled : s.pc ≡ selecting → Step s (record s { pc = draining none 0 })
  first_stop :
      (e : Option Text)
      → s.pc ≡ selecting
      → get_elem? s.errc 0 ≡ some e
      → Step s (record s { pc = draining e 1 })
  shuts_down :
      (serve_err : Option Text) (received : ℕ) (left : List Server) (v : Server)
      (right : List Server) (e : Option Text)
      → s.pc ≡ draining serve_err received
      → s.servers ≡ left ++ v ∷ right
      → v.up ≡ true
      → Step s (record s {
        servers = left ++ record v { up = false } ∷ right;
        shutdown_err = or_else s.shutdown_err (shutdown_error e);
        shutdowns = s.shutdowns ++ e ∷ [];
      })
  drained :
      (serve_err : Option Text) (received : ℕ)
      → s.pc ≡ draining serve_err received
      → All IsDown s.servers
      → Step s (record s { pc = collecting serve_err received })
  receives :
      (serve_err : Option Text) (received : ℕ) (e : Option Text)
      → s.pc ≡ collecting serve_err received
      → received < length s.servers
      → get_elem? s.errc received ≡ some e
      → Step s (record s { pc = collecting (or_else serve_err e) (ℕ.suc received) })
  returns :
      (serve_err : Option Text) (received : ℕ)
      → s.pc ≡ collecting serve_err received
      → length s.servers ≡ received
      → Step s (record s { pc = returned (or_else serve_err s.shutdown_err) })

abbrev fresh_servers : ℕ → List Server
fresh_servers ℕ.zero = []
fresh_servers (ℕ.suc n) = record { serving = true; up = true } ∷ fresh_servers n

-- runAll on `n` servers, all of them started.
abbrev pub run_all : ℕ → System
run_all n = record {
  servers = fresh_servers n;
  errc = [];
  exits = [];
  shutdown_err = none;
  shutdowns = [];
  pc = selecting;
}

-- A run of some number of steps.
pub data Steps (s : System) : ℕ → System → Type 0 where
  here : Steps s 0 s
  next : {k : ℕ} {t u : System} → Steps s k t → Step t u → Steps s (ℕ.suc k) u
