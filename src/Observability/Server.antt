-- ===== src/Observability/Server.antt =====
-- internal/observability/server.go: the health switches, the endpoints and `Run`. The HTTP server and
-- the listener are libraries: what they answer is a parameter.
pub mod Laws
mod Tests
use incuse.Base.{
  ℕ, ◌≡◌, refl, Text, codes, text_eq, ◌==◌, Bool, true, false, Option, none, some, Result, ok, err,
  List, [], ◌∷◌, if◌then◌else◌,
}

pub record Server : Type 0 where
  pub configured_addr : Text
  pub healthy : Bool
  pub ready : Bool
  pub addr : Text

-- `NewServer`
unfoldable pub new_server : Text → Server
new_server addr = record { configured_addr = addr; healthy = false; ready = false; addr = [] }

unfoldable pub mark_healthy : Server → Server
mark_healthy s = record s { healthy = true }

unfoldable pub mark_ready : Server → Server
mark_ready s = record s { ready = true }

unfoldable pub set_addr : Text → Server → Server
set_addr a s = record s { addr = a }

pub record Response : Type 0 where
  pub status : ℕ
  pub body : Text

abbrev status_ok : ℕ
status_ok = 200

abbrev status_unavailable : ℕ
status_unavailable = 503

unfoldable pub healthz : Server → Response
healthz s =
    if s.healthy
    then record { status = status_ok; body = codes "ok" }
    else record { status = status_unavailable; body = codes "starting" }

unfoldable pub readyz : Server → Response
readyz s =
    if s.ready
    then record { status = status_ok; body = codes "ready" }
    else record { status = status_unavailable; body = codes "not ready" }

-- The three routes of the multiplexer; a path that is none of them is its own affair.
unfoldable pub route : Text → Option (Server → Response)
unfolding healthz readyz
route path =
    if path == codes "/healthz"
    then some healthz
    else if path == codes "/readyz"
    then some readyz
    else none

-- What `Serve` returns.
pub data ServeError : Type 0 where
  server_closed : ServeError
  serve_failed : Text → ServeError

-- What reaches `errCh`: `http.ErrServerClosed` is no error.
unfoldable pub served : ServeError → Option Text
served server_closed = none
served (serve_failed e) = some e

-- Which branch the `select` of `Run` takes: the context is done and `Serve` returns after
-- `Shutdown`, or `Serve` returns by itself.
pub data Ending : Type 0 where
  context_done : ServeError → Ending
  serve_returned : ServeError → Ending

unfoldable pub ended : Ending → Option Text
unfolding served
ended (context_done e) = none
ended (serve_returned e) = served e

-- The server once `net.Listen` has answered, and the error of `Run`, if it has one.
unfoldable pub run : Result Text → Ending → Server → Server × Option Text
unfolding set_addr ended
run (err e) ending s = (s, some e)
run (ok bound) ending s = (set_addr bound s, ended ending)
