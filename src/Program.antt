-- ===== src/Program.antt =====
-- The life of the program from `run` of main.go on, with `Start` and `Shutdown` of
-- internal/server/server.go: the main goroutine, the one that waits for a signal, and the handlers.
pub mod Orderly
pub mod Missed
use alertsnitch.Base.{ℕ, ◌+◌, ◌≡◌, ◌≢◌, ◌⊎◌, Bool, true, false}

-- `httpServer`: not assigned yet, assigned, accepting requests, or shut down.
pub data Http : Type 0 where
  unassigned created listening shut : Http

-- The main goroutine: before and behind the assignment in `Start`, in ListenAndServe, waiting for
-- `stopped`, or at the end of the program: of its own accord, or by logrus.Fatalf.
pub data Main : Type 0 where
  starting assigned serving waiting finished failed : Main

-- The other goroutine: before the signal, before `Shutdown`, in its wait for the handlers, before
-- `Close`, or behind it.
pub data Watch : Type 0 where
  quiet signalled draining drained done : Watch

-- `requests` counts the handlers at work. `missed` and `late` are history: `Shutdown` found no server,
-- or it reached its deadline.
pub record Life : Type 0 where
  pub main : Main
  pub watch : Watch
  pub http : Http
  pub requests : ℕ
  pub backend_open : Bool
  pub missed : Bool
  pub late : Bool

-- The program has not ended.
abbrev pub IsAlive : Main → Type 0
IsAlive finished = ⊥
IsAlive failed = ⊥
IsAlive starting = Unit
IsAlive assigned = Unit
IsAlive serving = Unit
IsAlive waiting = Unit

-- `Start` up to ListenAndServe.
abbrev pub start_server : Life → Life
start_server s = record s { main = assigned; http = created }

-- `Shutdown`: without a server it returns at once; with one it closes the listeners, then it waits.
abbrev pub shutdown_server : Http → Life → Life
shutdown_server unassigned s = record s { watch = drained; missed = true }
shutdown_server created s = record s { watch = draining; http = shut }
shutdown_server listening s = record s { watch = draining; http = shut }
shutdown_server shut s = record s { watch = draining; http = shut }

-- One step of one of them.
pub data Step (s : Life) : Life → Type 0 where
  -- s.httpServer = &http.Server{...}
  assigns : s.main ≡ starting → Step s (start_server s)
  -- ListenAndServe of a server that is not shut down: it listens, or it cannot.
  listens :
      s.main ≡ assigned → s.http ≡ created → Step s (record s { main = serving; http = listening })
  refuses : s.main ≡ assigned → s.http ≡ created → Step s (record s { main = failed })
  -- ListenAndServe returns http.ErrServerClosed, at once or after it has served.
  returns :
      (s.main ≡ assigned) ⊎ (s.main ≡ serving)
      → s.http ≡ shut
      → Step s (record s { main = waiting })
  -- It returns another error.
  breaks : s.main ≡ serving → s.http ≡ listening → Step s (record s { main = failed })
  -- `<-stopped`
  finishes : s.main ≡ waiting → s.watch ≡ done → Step s (record s { main = finished })
  -- A request comes in, and a handler returns.
  accepts : IsAlive s.main → s.http ≡ listening → Step s (record s { requests = s.requests + 1 })
  -- `Shutdown` closes a kept-alive connection only when it is idle: until it has returned without an
  -- error, one can start another handler.
  lingers :
      IsAlive s.main
      → s.http ≡ shut
      → (s.watch ≡ draining) ⊎ (s.late ≡ true)
      → Step s (record s { requests = s.requests + 1 })
  answers : {n : ℕ} → IsAlive s.main → s.requests ≡ n + 1 → Step s (record s { requests = n })
  -- SIGINT or SIGTERM
  signals : IsAlive s.main → s.watch ≡ quiet → Step s (record s { watch = signalled })
  -- s.Shutdown(ctx)
  shuts : IsAlive s.main → s.watch ≡ signalled → Step s (shutdown_server s.http s)
  -- The last handler has returned, or the context has ended.
  drains :
      IsAlive s.main → s.watch ≡ draining → s.requests ≡ 0 → Step s (record s { watch = drained })
  gives_up :
      IsAlive s.main → s.watch ≡ draining → Step s (record s { watch = drained; late = true })
  -- driver.Close
  closes :
      IsAlive s.main → s.watch ≡ drained → Step s (record s { watch = done; backend_open = false })

-- `main` when it calls `run`.
abbrev pub begun : Life
begun = record {
  main = starting;
  watch = quiet;
  http = unassigned;
  requests = 0;
  backend_open = true;
  missed = false;
  late = false;
}

pub data Reach (s : Life) : Life → Type 0 where
  here : Reach s s
  next : {t u : Life} → Reach s t → Step t u → Reach s u
