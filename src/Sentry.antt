-- ===== src/Sentry.antt =====
-- pkg/gossip/sentry.go: NewSentry, which turns the options of the command line into the configuration of
-- the node, and makes the node with its service. A text is its bytes. `Os` has what the code asks of the
-- file system and of the process; `parse` is enode.Parse, and the default configuration and the default
-- bootnodes of the package config are arguments. An option of an int that is not positive is 0.
pub mod Configured
pub mod Ipc
pub mod Sample
mod Tests
use sonicpeer.Base.{
  ℕ, Bool, true, false, not, List, [], ◌∷◌, ◌++◌, Option, none, some, if◌then◌else◌, ltb, length,
}

abbrev pub Text : Type 0
Text = List ℕ

-- filepath.IsAbs and filepath.Join, the current directory if it is known, and the path of the socket
-- under the directory for temporary files.
pub record Os : Type 0 where
  pub is_abs : Text → Bool
  pub join : Text → Text → Text
  pub cwd : Option Text
  pub short_path : Text

-- The options of a server of the RPC
pub record Server : Type 0 where
  pub host : Text
  pub port : ℕ
  pub origins : List Text
  pub modules : List Text
  pub path_prefix : Text

-- `SentryConfig`, less what is passed on to the service and to the metrics
pub record SentryConfig : Type 0 where
  pub data_dir : Text
  pub bootnodes : List Text
  pub listen_port : ℕ
  pub max_peers : ℕ
  pub http_enabled : Bool
  pub http : Server
  pub http_virtual_hosts : List Text
  pub ws_enabled : Bool
  pub ws : Server
  pub ipc_disabled : Bool

-- The fields of node.Config that NewSentry sets or reads
pub record NodeConfig (N : Type 0) : Type 0 where
  pub data_dir : Text
  pub listen_port : ℕ
  pub max_peers : ℕ
  pub has_nat : Bool
  pub http : Server
  pub http_virtual_hosts : List Text
  pub ws : Server
  pub ipc_path : Text
  pub bootstrap_nodes : List N
  pub static_nodes : List N

-- "sonic.ipc"
abbrev pub sonic_ipc : Text
sonic_ipc = 115 ∷ 111 ∷ 110 ∷ 105 ∷ 99 ∷ 46 ∷ 105 ∷ 112 ∷ 99 ∷ []

-- A server that is not enabled has no host.
abbrev pub served : Bool → Server → Server
served true s = s
served false s = record s { host = [] }

abbrev pub or_default : Text → Text → Text
or_default [] text = text
or_default (c ∷ cs) text = c ∷ cs

abbrev pub in_dir : Os → Text → Text → Text
in_dir os dir path = if os.is_abs path then path else os.join dir path

-- The data directory, made absolute where the current directory is known.
abbrev pub absolute : Os → Text → Text
absolute os dir = elim os.cwd [ none ↦ dir | some cwd ↦ in_dir os cwd dir ]

-- What the loop over the addresses gives: the nodes, or the address that is refused.
pub data Nodes (N : Type 0) : Type 0 where
  parsed : List N → Nodes N
  invalid : Text → Nodes N

-- The addresses of the options, or the default ones
abbrev pub bootnode_urls : List Text → List Text → List Text
bootnode_urls [] defaults = defaults
bootnode_urls (url ∷ urls) defaults = url ∷ urls

-- The errors of NewSentry
pub data SentryError : Type 0 where
  invalid_bootnode : Text → SentryError
  stack_failed service_failed : ℕ → SentryError

-- What NewSentry does with the node: it is made, closed, and given the protocols, the APIs and the
-- lifecycle of the service.
pub data Action (N : Type 0) : Type 0 where
  creates : NodeConfig N → Action N
  closes registers : Action N

pub data Sentry (N : Type 0) : Type 0 where
  ready : NodeConfig N → Sentry N
  no_sentry : SentryError → Sentry N

module _ {N : Type 0} where
  -- The part that maps the options
  unfoldable pub mapped : SentryConfig → NodeConfig N → NodeConfig N
  mapped cfg c = record c {
    data_dir = cfg.data_dir;
    listen_port = cfg.listen_port;
    max_peers = if ltb 0 cfg.max_peers then cfg.max_peers else c.max_peers;
    has_nat = false;
    http = served cfg.http_enabled cfg.http;
    http_virtual_hosts = cfg.http_virtual_hosts;
    ws = served cfg.ws_enabled cfg.ws;
    ipc_path = if cfg.ipc_disabled then [] else c.ipc_path;
  }

  -- The path that is measured
  abbrev pub measured : Os → NodeConfig N → Text
  measured os c = in_dir os (absolute os c.data_dir) (or_default c.ipc_path sonic_ipc)

  -- The part that moves the socket where its path is too long
  unfoldable pub fix_ipc : Os → NodeConfig N → NodeConfig N
  fix_ipc os c = record c {
    data_dir = absolute os c.data_dir;
    ipc_path = if ltb 100 (length (measured os c)) then os.short_path else c.ipc_path;
  }

  -- The loop over the addresses
  unfoldable pub parse_bootnodes : (Text → Option N) → List Text → List N → Nodes N
  parse_bootnodes parse [] nodes = parsed nodes
  parse_bootnodes parse ([] ∷ urls) nodes = parse_bootnodes parse urls nodes
  parse_bootnodes parse ((c ∷ url) ∷ urls) nodes = elim (parse (c ∷ url)) [
    | none ↦ invalid (c ∷ url)
    | some n ↦ parse_bootnodes parse urls (nodes ++ n ∷ [])
  ]

  abbrev pub dialed : List N → NodeConfig N → NodeConfig N
  dialed [] c = record c { bootstrap_nodes = [] }
  dialed (n ∷ nodes) c = record c { bootstrap_nodes = n ∷ nodes; static_nodes = n ∷ nodes }

  -- The configuration of the node, before it is made
  unfoldable pub configure : Os → NodeConfig N → SentryConfig → List N → NodeConfig N
  unfolding mapped fix_ipc
  configure os default cfg nodes = dialed nodes (fix_ipc os (mapped cfg default))

  -- `NewSentry`, where `stack` is the error of node.New, and `service` that of NewService
  unfoldable pub new_sentry :
      Os
      → (Text → Option N)
      → NodeConfig N
      → List Text
      → Option ℕ
      → Option ℕ
      → SentryConfig
      → List (Action N) × Sentry N
  unfolding configure parse_bootnodes
  new_sentry os parse default defaults stack service cfg =
      elim (parse_bootnodes parse (bootnode_urls cfg.bootnodes defaults) []) [
        | invalid url ↦ ([], no_sentry (invalid_bootnode url))
        | parsed nodes ↦
            let c = configure os default cfg nodes in
            elim stack [
              | some x ↦ ([], no_sentry (stack_failed x))
              | none ↦ elim service [
                | some x ↦ (creates c ∷ closes ∷ [], no_sentry (service_failed x))
                | none ↦ (creates c ∷ registers ∷ [], ready c)
              ]
            ]
      ]
