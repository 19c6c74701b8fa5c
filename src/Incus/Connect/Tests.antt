-- ===== src/Incus/Connect/Tests.antt =====
-- Calls of internal/incus that reach a daemon.
use incuse.Base.{pos, Text, text_eq, codes, false, some, Result, err, [], ◌≡◌, refl, inr}
use incuse.Incus.Connect.{Config, unix, dial, connection_args, use_project, list_project}

abbrev local : Config
local = record {
  socket_path = [];
  url = [];
  cert_file = [];
  key_file = [];
  server_cert_file = [];
  insecure_skip_verify = false;
  project = codes "incuse";
  user_agent = [];
  request_timeout = pos 0;
  has_http_client = false;
}

abbrev no_file : Text → Result Text
no_file path = err (codes "no such file")

dial_test :
    dial no_file local (connection_args local)
    ≡ inr (unix (codes "/var/lib/incus/unix.socket") (connection_args local))
unfolding dial
dial_test = refl

timeout_test : (connection_args local).http_timeout ≡ some (pos 600000000000)
unfolding connection_args
timeout_test = refl

list_test :
    list_project (use_project local (codes "connection")) (codes "other") ≡ some (codes "other")
unfolding list_project use_project text_eq
list_test = refl
