-- ===== src/Service/Creation.antt =====
-- pkg/gossip/service.go and pkg/gossip/api.go: newService with its errors, the callback PeerInfo of
-- the protocols, and the start of a subscription. The error of the iterator over the DNS names is
-- an argument, and so are the dial and the first reply of the backend. The time limit of the RPC
-- server, which newService sets as well, belongs to go-ethereum.
pub mod Notified
use sonicpeer.Base.{ℕ, Bool, true, false, List, [], Option, none, some}
use sonicpeer.Backend.{Reply}
use sonicpeer.Config.{Config}
use sonicpeer.Env.{Env, Makers}
use sonicpeer.Handler.{Handler}
use sonicpeer.Handler.Creation.{HandlerConfig, CreationError, made, no_handler, new_handler}
use sonicpeer.Peer.{PeerInfo, info}
use sonicpeer.PeerSet.{PeerSet, peer}
use sonicpeer.Service.{Feed, new_feed}

-- `Service`: its handler, and the transactions in `txCh`
pub record Service (e : Env) : Type 0 where
  pub handler : Handler e
  pub tx_ch : List e.Tx

-- The arguments of newService, with the answer of the source of the local end point
pub record ServiceConfig (e : Env) : Type 0 where
  pub network_id : ℕ
  pub genesis : ℕ
  pub local_id : ℕ
  pub local_end_point : Option e.Node
  pub config : Config

pub data ServiceError : Type 0 where
  dns_failed : ℕ → ServiceError
  handler_failed : CreationError → ServiceError

pub data NewService (e : Env) : Type 0 where
  started : Service e → NewService e
  no_service : ServiceError → NewService e

module _ {e : Env} where
  -- The configuration of the handler, which has the hook for new transactions
  abbrev pub handler_config : ServiceConfig e → HandlerConfig e
  handler_config c = record {
    network_id = c.network_id;
    config = c.config;
    genesis = c.genesis;
    local_id = c.local_id;
    local_end_point = c.local_end_point;
    has_new_txs_hook = true;
  }

  -- `newService`
  unfoldable pub new_service :
      Makers e → ServiceConfig e → Option ℕ → Option ℕ → Reply → NewService e
  new_service makers c (some x) dial reply = no_service (dns_failed x)
  new_service makers c none dial reply = elim (new_handler makers (handler_config c) dial reply) [
    | no_handler x ↦ no_service (handler_failed x)
    | made h ↦ started (record { handler = h; tx_ch = [] })
  ]

  -- `PeerInfo` of a protocol
  abbrev pub peer_info : ℕ → PeerSet e → Option PeerInfo
  peer_info id ps = elim (peer id ps) [ none ↦ none | some p ↦ some (info p) ]

  -- The start of NewPendingTransactions and NewFullPendingTransactions; `none` is
  -- ErrNotificationsUnsupported, for a connection without notifications.
  abbrev pub subscribe : {V : Type 0} → Bool → Service e → Option (Feed e.Tx V)
  subscribe false s = none
  subscribe true s = some (new_feed s.tx_ch)
