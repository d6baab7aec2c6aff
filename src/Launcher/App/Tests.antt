-- ===== src/Launcher/App/Tests.antt =====
-- A harness that listens on both channels, and command lines that end early.
use sonicpeer.Base.{◌≡◌, ℕ, refl, true, false, [], ◌∷◌, Option, none, some}
use sonicpeer.Sentry.Sample.{os, parse, default}
use sonicpeer.Launcher.App.{
  Options, AppControl, id_channel, port_channel, Outside, fails, acts, closes_channel,
  run_with_args, main,
}
use sonicpeer.Launcher.App.Announced.{Seen, unseen, watch, Announces, run_with_args-Announces}

abbrev outside : Outside ℕ
outside = record {
  os = os;
  parse = parse;
  default = default;
  defaults = [];
  stack = none;
  service = none;
  start = none;
  node_info = 110 ∷ [];
  http_endpoint = [];
}

-- "4, 5" for the bootnodes
abbrev options : Options
options = record {
  data_dir = 100 ∷ [];
  bootnodes = 52 ∷ 44 ∷ 32 ∷ 53 ∷ [];
  listen_port = 30303;
  max_peers = 50;
  http_enabled = false;
  http_addr = [];
  http_port = 0;
  http_cors_domain = [];
  http_virtual_hosts = [];
  http_api = [];
  http_path_prefix = [];
  ws_enabled = false;
  ws_addr = [];
  ws_port = 0;
  ws_api = [];
  ws_allowed_origins = [];
  ws_path_prefix = [];
  ipc_disabled = true;
}

abbrev both : Option AppControl
both = some (record { has_node_id = true; has_http_port = true })

status : (main outside (fails 3)).1 ≡ 1
unfolding main run_with_args
status = refl

closed_unused :
    (run_with_args outside (fails 3) both).0
    ≡ closes_channel port_channel ∷ closes_channel id_channel ∷ []
unfolding run_with_args
closed_unused = refl

run_with_args-Announces_example :
    (s : Seen) × (watch id_channel (run_with_args outside (acts options) both).0 unseen ≡ some s)
    × (s.is_closed ≡ true)
    × Announces outside both id_channel
        (acts options)
        (run_with_args outside (acts options) both).1
        s.received
run_with_args-Announces_example = run_with_args-Announces outside both id_channel (acts options)
