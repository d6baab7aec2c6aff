-- ===== src/Launcher/App.antt =====
-- cmd/main.go, cmd/app/app.go and cmd/app/launcher.go: the program from its command line to its end, as the
-- list of what it does. The reader of the command line, the node and the announced texts are arguments.
pub mod Announced
mod Tests
use sonicpeer.Base.{ℕ, Bool, true, false, List, [], ◌∷◌, ◌++◌, Option, none, some, map}
use sonicpeer.Launcher.{split_and_trim}
use sonicpeer.Sentry.{
  Text, Os, SentryConfig, NodeConfig, SentryError, Action, Sentry, ready, no_sentry, new_sentry,
}

-- The values of the flags in a context of the command line, less what is passed on to the service
-- and to the metrics
pub record Options : Type 0 where
  pub data_dir : Text
  pub bootnodes : Text
  pub listen_port : ℕ
  pub max_peers : ℕ
  pub http_enabled : Bool
  pub http_addr : Text
  pub http_port : ℕ
  pub http_cors_domain : Text
  pub http_virtual_hosts : Text
  pub http_api : Text
  pub http_path_prefix : Text
  pub ws_enabled : Bool
  pub ws_addr : Text
  pub ws_port : ℕ
  pub ws_api : Text
  pub ws_allowed_origins : Text
  pub ws_path_prefix : Text
  pub ipc_disabled : Bool

-- The configuration that sentryMainInternal makes of a context
unfoldable pub sentry_config : Options → SentryConfig
sentry_config o = record {
  data_dir = o.data_dir;
  bootnodes = split_and_trim o.bootnodes;
  listen_port = o.listen_port;
  max_peers = o.max_peers;
  http_enabled = o.http_enabled;
  http = record {
    host = o.http_addr;
    port = o.http_port;
    origins = split_and_trim o.http_cors_domain;
    modules = split_and_trim o.http_api;
    path_prefix = o.http_path_prefix;
  };
  http_virtual_hosts = split_and_trim o.http_virtual_hosts;
  ws_enabled = o.ws_enabled;
  ws = record {
    host = o.ws_addr;
    port = o.ws_port;
    origins = split_and_trim o.ws_allowed_origins;
    modules = split_and_trim o.ws_api;
    path_prefix = o.ws_path_prefix;
  };
  ipc_disabled = o.ipc_disabled;
}

-- The two channels of the test harness on which the program sends
pub data Channel : Type 0 where
  id_channel port_channel : Channel

-- `AppControl`: which of these channels are not nil
pub record AppControl : Type 0 where
  pub has_node_id : Bool
  pub has_http_port : Bool

-- What the program does: what NewSentry does, the start of the node, a value that is sent, the
-- goroutine that waits for signals, the wait for the end of the node, and a channel that is closed.
pub data Step (N : Type 0) : Type 0 where
  does : Action N → Step N
  starts spawns waits : Step N
  announces : Channel → Text → Step N
  closes_channel : Channel → Step N

-- The errors of the program: of the reader of the command line, of NewSentry and of Start.
pub data MainError : Type 0 where
  usage : ℕ → MainError
  not_made : SentryError → MainError
  not_started : ℕ → MainError

-- What the packages outside give: the arguments of NewSentry, the error of the node's Start, and the
-- texts that are announced of the node once it runs.
pub record Outside (N : Type 0) : Type 0 where
  pub os : Os
  pub parse : Text → Option N
  pub default : NodeConfig N
  pub defaults : List Text
  pub stack : Option ℕ
  pub service : Option ℕ
  pub start : Option ℕ
  pub node_info : Text
  pub http_endpoint : Text

-- What the reader makes of the arguments: it fails, or it is done, for example with the usage that it
-- prints, or it calls the action.
pub data CommandLine : Type 0 where
  fails : ℕ → CommandLine
  done : CommandLine
  acts : Options → CommandLine

module _ {N : Type 0} where
  abbrev pub when : Bool → Step N → List (Step N)
  when true step = step ∷ []
  when false step = []

  -- A text is not empty.
  abbrev pub when_some : Text → List (Step N) → List (Step N)
  when_some [] steps = []
  when_some (c ∷ cs) steps = steps

  -- The announcements to the test harness
  abbrev pub announcements : Text → Text → Option AppControl → List (Step N)
  announcements node_info http_endpoint none = []
  announcements node_info http_endpoint (some c) =
      when c.has_node_id (announces id_channel node_info)
      ++ when_some http_endpoint (when c.has_http_port (announces port_channel http_endpoint))

  -- `startSentry`
  pub start_sentry : Outside N → Option AppControl → List (Step N) × Option MainError
  start_sentry out control = elim out.start [
    | some x ↦ (starts ∷ [], some (not_started x))
    | none ↦ (starts ∷ announcements out.node_info out.http_endpoint control ++ spawns ∷ [], none)
  ]

  -- sentryMainInternal after startSentry
  abbrev pub then_waits :
      List (Step N) → List (Step N) × Option MainError → List (Step N) × Option MainError
  then_waits made (steps, some x) = (made ++ steps, some x)
  then_waits made (steps, none) = (made ++ steps ++ waits ∷ [], none)

  -- sentryMainInternal after NewSentry
  pub then_starts :
      Outside N → Option AppControl → List (Action N) × Sentry N → List (Step N) × Option MainError
  unfolding start_sentry
  then_starts out control (actions, no_sentry x) = (map does actions, some (not_made x))
  then_starts out control (actions, ready c) =
      then_waits (map does actions) (start_sentry out control)

  -- `sentryMainInternal`
  pub sentry_main_internal :
      Outside N → Options → Option AppControl → List (Step N) × Option MainError
  unfolding then_starts
  sentry_main_internal out o control =
      then_starts out control (
        new_sentry out.os out.parse out.default out.defaults out.stack out.service
          (sentry_config o))

  -- `app.Run`, with the action that calls sentryMainInternal
  abbrev pub run_app :
      Outside N → CommandLine → Option AppControl → List (Step N) × Option MainError
  run_app out (fails x) control = ([], some (usage x))
  run_app out done control = ([], none)
  run_app out (acts o) control = sentry_main_internal out o control

  -- The deferred calls of RunWithArgs, the last one first
  abbrev pub closings : Option AppControl → List (Step N)
  closings none = []
  closings (some c) =
      when c.has_http_port (closes_channel port_channel)
      ++ when c.has_node_id (closes_channel id_channel)

  -- `RunWithArgs`
  unfoldable pub run_with_args :
      Outside N → CommandLine → Option AppControl → List (Step N) × Option MainError
  unfolding sentry_main_internal
  run_with_args out line control =
      let (steps, err) = run_app out line control in (steps ++ closings control, err)

  -- `main`, with the status that the process exits with
  unfoldable pub main : Outside N → CommandLine → List (Step N) × ℕ
  unfolding run_with_args
  main out line =
      let (steps, err) = run_with_args out line none in (steps, elim err [ none ↦ 0 | some x ↦ 1 ])
