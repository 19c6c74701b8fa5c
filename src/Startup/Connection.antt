-- ===== src/Startup/Connection.antt =====
-- cmd/incuse/main.go: the connection to Incus that `run` makes from the configuration.
use incuse.Base.{
  ◌≡◌, ◌≢◌, ◌⊎◌, inl, inr, Text, codes, text_eq, false, Option, some, Result, ok, ◌++◌,
}
use incuse.Config.{Config, IncusConfig}
use incuse.Config.Defaults.{apply_defaults}
use incuse.Incus.Connect.{
  Dial, ConnectError, no_cert_or_key, RealClient, connection_args, list_project, use_project,
}
use incuse.Incus.Connect
use incuse.Incus.Connect.Laws.{Secured, Local}

-- The `incus.Config` that `run` builds.
unfoldable pub incus_config : IncusConfig → Text → Connect.Config
incus_config c version = record {
  socket_path = c.socket_path;
  url = c.url;
  cert_file = c.cert_file;
  key_file = c.key_file;
  server_cert_file = c.server_cert_file;
  insecure_skip_verify = c.insecure_skip_verify;
  project = c.project;
  user_agent = codes "incuse/" ++ version;
  request_timeout = c.request_timeout;
  has_http_client = false;
}

-- The connection that a file asks for.
abbrev pub connect_config : Text → Config → Connect.Config
connect_config version raw = incus_config (apply_defaults raw).incus version

module _ {Conn : Type 0} (parse_url : Text → Option (Text × Text)) (read_file : Text → Result Text)
    (answer : Dial → Result Conn) (version : Text) (raw : Config) where
  abbrev cfg : Connect.Config
  cfg = connect_config version raw

  -- A client that works in the project of the configuration, launching and listing, over the call
  -- that the configuration asks for; or what went wrong, which is no missing setting.
  abbrev pub Connects : ConnectError ⊎ RealClient Conn → Type 0
  Connects (inl e) = e ≢ no_cert_or_key
  Connects (inr client) =
      (d : Dial) × (Secured read_file cfg (connection_args cfg) d
        ⊎ Local read_file cfg (connection_args cfg) d)
      × (answer d ≡ ok client.server)
      × (client.uses ≡ some (apply_defaults raw).incus.project)
      × (list_project client (apply_defaults raw).incus.project ≡ client.uses)
