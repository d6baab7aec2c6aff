-- ===== src/Sentry/Configured.antt =====
-- The nodes that a new sentry dials, and what a NewSentry that fails leaves behind.
use mathlib.Core.List.{append_assoc, append-nil}
use sonicpeer.Base.{
  ℕ, ◌+◌, ◌-◌, ◌≡◌, ◌≢◌, refl, sym, ap, ◌∙◌, ◌⊎◌, inl, inr, false, List, [], ◌∷◌, ◌++◌, Option,
  none, some, arith, map, Option-cases, if◌then◌else◌, ltb,
}
use sonicpeer.Sentry.{
  Text, Os, SentryConfig, NodeConfig, parsed, invalid, parse_bootnodes, bootnode_urls, SentryError,
  invalid_bootnode, stack_failed, service_failed, Action, creates, closes, registers, ready,
  no_sentry, mapped, fix_ipc, configure, new_sentry,
}

-- The addresses that are not empty
abbrev pub filled : List Text → List Text
filled [] = []
filled ([] ∷ urls) = filled urls
filled ((c ∷ url) ∷ urls) = (c ∷ url) ∷ filled urls

-- How many nodes are open after what is done with them
abbrev pub still_open : {N : Type 0} → List (Action N) → ℕ → ℕ
still_open [] n = n
still_open (creates c ∷ actions) n = still_open actions (n + 1)
still_open (closes ∷ actions) n = still_open actions (n - 1)
still_open (registers ∷ actions) n = still_open actions n

module _ {N : Type 0} (parse : Text → Option N) where
  -- The addresses stand for the nodes.
  abbrev pub StandFor : List Text → List N → Type 0
  StandFor urls nodes = map parse (filled urls) ≡ map some nodes

  -- The first address that is neither empty nor parsed
  pub record FirstInvalid (urls : List Text) (url : Text) : Type 0 where
    pub before : List Text
    pub after : List Text
    pub here : urls ≡ before ++ url ∷ after
    pub nodes : List N
    pub good : StandFor before nodes
    pub bad : parse url ≡ none
    pub not_empty : url ≢ []

  later_empty :
      {urls : List Text} {url : Text} → FirstInvalid urls url → FirstInvalid ([] ∷ urls) url
  later_empty first = record {
    before = [] ∷ first.before;
    after = first.after;
    here = ap (λ l. [] ∷ l) first.here;
    nodes = first.nodes;
    good = first.good;
    bad = first.bad;
    not_empty = first.not_empty;
  }

  later_parsed :
      {urls : List Text} {url : Text} (c : ℕ) (cs : Text) (n : N)
      → parse (c ∷ cs) ≡ some n
      → FirstInvalid urls url
      → FirstInvalid ((c ∷ cs) ∷ urls) url
  later_parsed c cs n some' first = record {
    before = (c ∷ cs) ∷ first.before;
    after = first.after;
    here = ap (λ l. (c ∷ cs) ∷ l) first.here;
    nodes = n ∷ first.nodes;
    good = rw some' (ap (λ l. some n ∷ l) first.good);
    bad = first.bad;
    not_empty = first.not_empty;
  }

  -- The loop reads all of the addresses, or refuses the first that is invalid.
  Read : List Text → List N → Type 0
  Read urls acc =
      ((nodes : List N) × (parse_bootnodes parse urls acc ≡ parsed (acc ++ nodes))
        × StandFor urls nodes)
      ⊎ ((url : Text) × (parse_bootnodes parse urls acc ≡ invalid url) × FirstInvalid urls url)

  parse_bootnodes-Read : (urls : List Text) (acc : List N) → Read urls acc
  unfolding parse_bootnodes Read
  parse_bootnodes-Read [] acc = inl ([], ap parsed (sym (append-nil acc)), refl)
  parse_bootnodes-Read ([] ∷ urls) acc = elim (parse_bootnodes-Read urls acc) [
    | inl (nodes, runs, all) ↦ inl (nodes, runs, all)
    | inr (url, runs, first) ↦ inr (url, runs, later_empty first)
  ]
  parse_bootnodes-Read ((c ∷ url) ∷ urls) acc = elim (Option-cases (parse (c ∷ url))) [
    | inl none' ↦ inr (
      c ∷ url,
      rw (none', parse_bootnodes) refl,
      record {
        before = [];
        after = urls;
        here = refl;
        nodes = [];
        good = refl;
        bad = none';
        not_empty = λ h. ground (arith, h);
      },
    )
    | inr (n, some') ↦ elim (parse_bootnodes-Read urls (acc ++ n ∷ [])) [
      | inl (nodes, runs, all) ↦ inl (
        n ∷ nodes,
        rw (some', parse_bootnodes) (runs ∙ ap parsed (append_assoc acc (n ∷ []) nodes)),
        rw some' (ap (λ l. some n ∷ l) all),
      )
      | inr (bad, runs, first) ↦
          inr (bad, rw (some', parse_bootnodes) runs, later_parsed c url n some' first)
    ]
  ]

  module _ (os : Os) (default : NodeConfig N) (defaults : List Text) (cfg : SentryConfig) where
    abbrev pub urls : List Text
    urls = bootnode_urls cfg.bootnodes defaults

    -- What the configuration of the node says of its peers and of its servers
    pub record Configured (c : NodeConfig N) : Type 0 where
      pub dials : StandFor urls c.bootstrap_nodes
      pub keeps :
          (c.static_nodes ≡ c.bootstrap_nodes)
          ⊎ ((c.bootstrap_nodes ≡ []) × (c.static_nodes ≡ default.static_nodes))
      pub limit : c.max_peers ≡ (if ltb 0 cfg.max_peers then cfg.max_peers else default.max_peers)
      pub no_http : cfg.http_enabled ≡ false → c.http.host ≡ []
      pub no_ws : cfg.ws_enabled ≡ false → c.ws.host ≡ []

    configure-Configured :
        (nodes : List N) → StandFor urls nodes → Configured (configure os default cfg nodes)
    unfolding configure mapped fix_ipc
    configure-Configured [] all = record {
      dials = all;
      keeps = inr (refl, refl);
      limit = refl;
      no_http = λ off. rw off refl;
      no_ws = λ off. rw off refl;
    }
    configure-Configured (n ∷ nodes) all = record {
      dials = all;
      keeps = inl refl;
      limit = refl;
      no_http = λ off. rw off refl;
      no_ws = λ off. rw off refl;
    }

    -- Why NewSentry fails.
    pub data Causes (stack service : Option ℕ) : SentryError → Type 0 where
      no_node : (url : Text) → FirstInvalid urls url → Causes stack service (invalid_bootnode url)
      no_stack : (x : ℕ) → stack ≡ some x → Causes stack service (stack_failed x)
      no_service :
          (x : ℕ) → stack ≡ none → service ≡ some x → Causes stack service (service_failed x)

    -- NewSentry either makes a sentry or fails. A sentry has one node, which is open and has the service
    -- registered; it dials at the start the nodes of all the addresses that are not empty, in order,
    -- and keeps the connections to them if there are any; its limit of peers is that of the options
    -- if that is positive; a server that is not enabled has no host. Where NewSentry fails it
    -- leaves no node open, and it fails for one of three reasons alone: the first address that is neither
    -- empty nor the address of a node, the node, or the service.
    pub new_sentry-Configured :
        (stack service : Option ℕ)
        → ((c : NodeConfig N) × (new_sentry os parse default defaults stack service cfg
              ≡ (creates c ∷ registers ∷ [], ready c))
            × Configured c)
          ⊎ ((x : SentryError) × (actions : List (Action N)) × (new_sentry os parse default defaults
                  stack service cfg
                ≡ (actions, no_sentry x))
              × (still_open actions 0 ≡ 0)
              × Causes stack service x)
    unfolding new_sentry Read
    new_sentry-Configured stack service = elim (parse_bootnodes-Read urls []) [
      | inr (url, runs, first) ↦
          inr (invalid_bootnode url, [], rw (runs, new_sentry) refl, refl, no_node url first)
      | inl (nodes, runs, all) ↦ elim (Option-cases stack) [
        | inr (x, fails) ↦
            inr (stack_failed x, [], rw (runs, new_sentry) (rw fails refl), refl, no_stack x fails)
        | inl ok ↦ elim (Option-cases service) [
          | inr (x, fails) ↦ inr (
            service_failed x,
            creates (configure os default cfg nodes) ∷ closes ∷ [],
            rw (runs, new_sentry) (rw ok (rw fails refl)),
            refl,
            no_service x ok fails,
          )
          | inl up ↦ inl (
            configure os default cfg nodes,
            rw (runs, new_sentry) (rw ok (rw up refl)),
            configure-Configured nodes all,
          )
        ]
      ]
    ]
