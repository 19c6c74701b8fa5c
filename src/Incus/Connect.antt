-- ===== src/Incus/Connect.antt =====
-- internal/incus/client.go: `Connect`, `dial`, `Close` and `List`. The upstream client is a library:
-- the calls of it are values, and what they answer is a parameter.
pub mod Laws
mod Tests
use incuse.Base.{
  ℤ, pos, ltb_ℤ, ◌*ℤ◌, Text, codes, text_eq, ◌==◌, is_empty, Bool, true, false, not, ◌&&◌, ◌||◌,
  Option, none, some, Result, ok, err, ◌⊎◌, inl, inr, List, [], ◌∷◌, map, if◌then◌else◌,
}
use incuse.Incus.{Instance}

-- `Config`; `has_http_client` is the override that tests use. Times are in nanoseconds.
pub record Config : Type 0 where
  pub socket_path : Text
  pub url : Text
  pub cert_file : Text
  pub key_file : Text
  pub server_cert_file : Text
  pub insecure_skip_verify : Bool
  pub project : Text
  pub user_agent : Text
  pub request_timeout : ℤ
  pub has_http_client : Bool

-- `upstream.ConnectionArgs`; the HTTP client is the given one, or one with a timeout.
pub record ConnectionArgs : Type 0 where
  pub user_agent : Text
  pub http_timeout : Option ℤ
  pub insecure_skip_verify : Bool
  pub skip_get_events : Bool
  pub skip_get_server : Bool
  pub tls_client_cert : Text
  pub tls_client_key : Text
  pub tls_server_cert : Text

pub data ConnectError : Type 0 where
  no_cert_or_key : ConnectError
  unreadable_cert unreadable_key unreadable_server_cert : Text → Text → ConnectError
  not_connected : Text → ConnectError

-- The call that reaches Incus.
pub data Dial : Type 0 where
  http_with_client : ConnectionArgs → Dial
  https unix : Text → ConnectionArgs → Dial

unfoldable pub choose_user_agent : Text → Text
choose_user_agent ua = if is_empty ua then codes "incuse" else ua

abbrev ten_minutes : ℤ
ten_minutes = pos 600000000000

abbrev default_socket : Text
default_socket = codes "/var/lib/incus/unix.socket"

unfoldable pub request_timeout_of : Config → ℤ
request_timeout_of cfg =
    if ltb_ℤ (pos 0) cfg.request_timeout then cfg.request_timeout else ten_minutes

unfoldable pub connection_args : Config → ConnectionArgs
unfolding choose_user_agent request_timeout_of
connection_args cfg = record {
  user_agent = choose_user_agent cfg.user_agent;
  http_timeout = if cfg.has_http_client then none else some (request_timeout_of cfg);
  insecure_skip_verify = cfg.insecure_skip_verify;
  skip_get_events = true;
  skip_get_server = false;
  tls_client_cert = [];
  tls_client_key = [];
  tls_server_cert = [];
}

module _ (read_file : Text → Result Text) where
  -- The pinned certificate, if one is named.
  unfoldable pub pin_server : Config → ConnectionArgs → Result Text → ConnectError ⊎ Dial
  pin_server cfg args (err e) =
      if is_empty cfg.server_cert_file
      then inr (https cfg.url args)
      else inl (unreadable_server_cert cfg.server_cert_file e)
  pin_server cfg args (ok srv) =
      if is_empty cfg.server_cert_file
      then inr (https cfg.url args)
      else inr (https cfg.url (record args { tls_server_cert = srv }))

  unfoldable pub with_key : Config → ConnectionArgs → Text → Result Text → ConnectError ⊎ Dial
  unfolding pin_server
  with_key cfg args cert (err e) = inl (unreadable_key cfg.key_file e)
  with_key cfg args cert (ok key) =
      pin_server cfg (record args { tls_client_cert = cert; tls_client_key = key })
        (read_file cfg.server_cert_file)

  unfoldable pub with_cert : Config → ConnectionArgs → Result Text → ConnectError ⊎ Dial
  unfolding with_key
  with_cert cfg args (err e) = inl (unreadable_cert cfg.cert_file e)
  with_cert cfg args (ok cert) = with_key cfg args cert (read_file cfg.key_file)

  unfoldable pub dial : Config → ConnectionArgs → ConnectError ⊎ Dial
  unfolding with_cert
  dial cfg args =
      if cfg.has_http_client
      then inr (http_with_client (record args { skip_get_server = true }))
      else if not (is_empty cfg.url)
      then (if is_empty cfg.cert_file || is_empty cfg.key_file
          then inl no_cert_or_key
          else with_cert cfg args (read_file cfg.cert_file))
      else inr (unix (if is_empty cfg.socket_path then default_socket else cfg.socket_path) args)

-- A connection, and the project that it works in; `none` is the connection's own default.
pub record RealClient (Conn : Type 0) : Type 0 where
  pub server : Conn
  pub uses : Option Text
  pub project : Text

module _ {Conn : Type 0} where
  unfoldable pub use_project : Config → Conn → RealClient Conn
  use_project cfg c = record {
    server = c;
    uses = if not (is_empty cfg.project) then some cfg.project else none;
    project = cfg.project;
  }

  unfoldable pub after_connect : Config → Result Conn → ConnectError ⊎ RealClient Conn
  unfolding use_project
  after_connect cfg (err e) = inl (not_connected e)
  after_connect cfg (ok c) = inr (use_project cfg c)

  -- `Connect`, over what the library answers to the call.
  unfoldable pub after_dial :
      (Dial → Result Conn) → Config → ConnectError ⊎ Dial → ConnectError ⊎ RealClient Conn
  unfolding after_connect
  after_dial answer cfg (inl e) = inl e
  after_dial answer cfg (inr d) = after_connect cfg (answer d)

  unfoldable pub connect :
      (Text → Result Text) → (Dial → Result Conn) → Config → ConnectError ⊎ RealClient Conn
  unfolding after_dial dial connection_args
  connect read_file answer cfg = after_dial answer cfg (dial read_file cfg (connection_args cfg))

  -- The project that `List` asks for.
  unfoldable pub list_project : RealClient Conn → Text → Option Text
  list_project c project_filter =
      if not (is_empty project_filter) && not (project_filter == c.project)
      then some project_filter
      else c.uses

  -- `List`, over what the server answers for a project.
  unfoldable pub list_instances :
      (Conn → Option Text → Result (List Instance))
      → RealClient Conn
      → Text
      → Result (List Instance)
  unfolding list_project
  list_instances get_instances c project_filter =
      get_instances c.server (list_project c project_filter)

  -- What `Close` disconnects.
  unfoldable pub close : RealClient Conn → Conn
  close c = c.server
