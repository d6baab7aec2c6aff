-- ===== src/Sentry/Sample.antt =====
-- A file system, a parser of addresses and options, at which the theorems are applied.
use sonicpeer.Base.{ℕ, true, false, List, [], ◌∷◌, ◌++◌, Option, none, some, if◌then◌else◌, ◌==◌}
use sonicpeer.Sentry.{Text, Os, Server, SentryConfig, NodeConfig}

-- 47 is the slash.
abbrev pub os : Os
os = record {
  is_abs = λ path. elim path [ [] ↦ false | c ∷ cs ↦ c == 47 ];
  join = λ dir path. dir ++ 47 ∷ path;
  cwd = some (47 ∷ 97 ∷ []);
  short_path = 47 ∷ 116 ∷ [];
}

-- An address that starts with a 9 is none.
abbrev pub parse : Text → Option ℕ
parse [] = none
parse (c ∷ cs) = if c == 9 then none else some c

abbrev pub server : Server
server = record { host = 1 ∷ []; port = 80; origins = []; modules = []; path_prefix = [] }

abbrev pub default : NodeConfig ℕ
default = record {
  data_dir = [];
  listen_port = 0;
  max_peers = 50;
  has_nat = true;
  http = server;
  http_virtual_hosts = [];
  ws = server;
  ipc_path = [];
  bootstrap_nodes = [];
  static_nodes = 3 ∷ [];
}

abbrev pub cfg : List Text → Text → SentryConfig
cfg bootnodes data_dir = record {
  data_dir = data_dir;
  bootnodes = bootnodes;
  listen_port = 5050;
  max_peers = 0;
  http_enabled = true;
  http = server;
  http_virtual_hosts = [];
  ws_enabled = false;
  ws = server;
  ipc_disabled = true;
}
