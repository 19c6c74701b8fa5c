-- ===== src/Incus/Connect/Laws.antt =====
-- How internal/incus reaches the daemon, and in which project it works.
use incuse.Base.{
  ◌≡◌, ◌≢◌, ◌↔◌, ◌⊎◌, inl, inr, refl, Text, text_eq, is_empty, true, false, not, some, Result, ok,
  [], arith, if◌then◌else◌,
}
use incuse.Incus.Connect.{
  Config, ConnectionArgs, no_cert_or_key, Dial, https, unix, default_socket, dial, use_project,
  list_project,
}

-- The settings of a daemon that is reached over HTTPS come with a certificate and its key.
abbrev pub HasKeys : Config → Type 0
HasKeys cfg = cfg.url ≢ [] → (cfg.cert_file ≢ []) × (cfg.key_file ≢ [])

module _ (read_file : Text → Result Text) (cfg : Config) (args : ConnectionArgs) where
  -- The pinned certificate: that of the file, or none where none is named.
  abbrev pub Pins : Text → Type 0
  Pins srv =
      ((cfg.server_cert_file ≡ []) × (srv ≡ args.tls_server_cert))
      ⊎ ((cfg.server_cert_file ≢ []) × (read_file cfg.server_cert_file ≡ ok srv))

  -- Over HTTPS, with what the files hold.
  abbrev pub Secured : Dial → Type 0
  Secured d =
      (cfg.url ≢ [])
      × (cert : Text) × (key : Text) × (srv : Text) × (read_file cfg.cert_file ≡ ok cert)
      × (read_file cfg.key_file ≡ ok key)
      × Pins srv
      × (d
          ≡ https cfg.url
              (record args { tls_client_cert = cert; tls_client_key = key; tls_server_cert = srv }))

  abbrev pub Local : Dial → Type 0
  Local d =
      (cfg.url ≡ [])
      × (d ≡ unix (if is_empty cfg.socket_path then default_socket else cfg.socket_path) args)

  pub dial-Reaches :
      cfg.has_http_client ≡ false
      → HasKeys cfg
      → (d : Dial) → (dial read_file cfg args ≡ inr d) ↔ (Secured d ⊎ Local d)
  unfolding dial
  dial-Reaches production keys d = (λ e. ground arith, λ r. ground arith)

  pub dial-ne-no_cert_or_key :
      cfg.has_http_client ≡ false → HasKeys cfg → dial read_file cfg args ≢ inl no_cert_or_key
  unfolding dial
  dial-ne-no_cert_or_key production keys e = ground (arith)

module _ {Conn : Type 0} (cfg : Config) (c : Conn) where
  -- A listing with the client's own project is one of the project that instances are launched in.
  pub use_project-list :
      not (is_empty cfg.project) ≡ true
      → ((use_project cfg c).uses ≡ some cfg.project)
        × (list_project (use_project cfg c) cfg.project ≡ (use_project cfg c).uses)
  unfolding use_project list_project
  use_project-list h = ground arith

  pub server-use_project : c ≡ (use_project cfg c).server
  unfolding use_project
  server-use_project = refl
