-- ===== src/Handler/Messages.antt =====
-- pkg/gossip/handler.go: handleMsg, which reads one message of a peer and acts on it. The peer stands
-- beside the handler, and `none` is a panic of the caches of known hashes. `now` and `later` are two
-- readings of the clock. The call of `Acquire` that waits is `try_acquire` at the moment when it ends.
pub mod Released
pub mod Accepted
pub mod InFlight
mod Tests
use sonicpeer.Base.{
  ℕ, Bool, List, [], ◌∷◌, Option, none, some, if◌then◌else◌, ltb, ◌==◌, length, member, store,
  ◌>>=◌,
}
use sonicpeer.Backend.{get_epoch}
use sonicpeer.Env.{Env, Metric, Read, failed, received}
use sonicpeer.Protocol.{Error}
use sonicpeer.Protocol.Code
use sonicpeer.Topology.{update_peers}
use sonicpeer.Peer.{Peer, PeerEndPointInfo, set_progress}
use sonicpeer.Handler.{Handler}
use sonicpeer.Handler.Gossip.{handle_tx_hashes, handle_txs}
use sonicpeer.Handler.Limits.{check_len_limits}
use sonicpeer.Handler.Staleness.{check_peer_staleness}

-- The handler and the peer afterwards, what the hook has been given, and the error that is returned.
abbrev pub Outcome : Env → Type 0
Outcome e = Option (Handler e × Peer e × List e.Tx × Option Error)

-- The peers whose address is well formed.
abbrev pub parsed : (e : Env) → List (List ℕ) → List e.Node
parsed e [] = []
parsed e (text ∷ texts) = elim (e.parse_node text) [
  | none ↦ parsed e texts
  | some n ↦ n ∷ parsed e texts
]

abbrev pub discover : (e : Env) → List e.Node → List (ℕ × e.Node) → List (ℕ × e.Node)
discover e [] m = m
discover e (n ∷ ns) m = discover e ns (store (e.node_id n) n m)

-- The messages that the node reads and leaves alone.
abbrev pub skipped : List ℕ
skipped =
    Code.get_evm_txs ∷ Code.events ∷ Code.new_event_ids ∷ Code.get_events
    ∷ Code.request_events_stream ∷ Code.events_stream_response ∷ Code.get_peer_infos ∷ []

-- What the handler acquires for a message.
abbrev pub message_weight : ℕ → Metric
message_weight size = record { num = 1; size = size }

module _ {e : Env} where
  -- A return that changes nothing.
  abbrev pub returns : Option Error → Handler e → Peer e → Outcome e
  returns err h p = some (h, p, [], err)

  -- A message that is not decoded is an error.
  abbrev pub decoded {ℓ} :
      {A : Type ℓ} → Option A → (A → Outcome e) → Handler e → Peer e → Outcome e
  decoded none act h p = returns (some Error.decode) h p
  decoded (some x) act h p = act x

  -- A list of no items, or of too many, is an error.
  abbrev pub within_limits : ℕ → Outcome e → Handler e → Peer e → Outcome e
  within_limits size act h p = elim (check_len_limits size) [
    | some x ↦ returns (some x) h p
    | none ↦ act
  ]

  pub on_progress : ℕ → ℕ → e.Body → Handler e → Peer e → Outcome e
  on_progress now later body h p =
      decoded (e.decode_progress body)
        (λ x.
          let current = get_epoch h.backend in
          let (p', err) =
            check_peer_staleness h.stale_grace_period
              (record { epoch = x.epoch; current = current; now = now; later = later }) p in
          elim err [ some y ↦ returns (some y) h p' | none ↦ returns none h (set_progress x p') ])
        h p

  pub on_txs : e.Body → Handler e → Peer e → Outcome e
  on_txs body h p =
      decoded (e.decode_txs body)
        (λ txs.
          within_limits (length txs)
            (do (h', p', hooked) ← handle_txs txs h p; some (h', p', hooked, none)) h p)
        h p

  pub on_tx_hashes : e.Body → Handler e → Peer e → Outcome e
  on_tx_hashes body h p =
      decoded (e.decode_hashes body)
        (λ hashes.
          within_limits (length hashes)
            (do (h', p') ← handle_tx_hashes hashes h p; some (h', p', [], none)) h p)
        h p

  pub on_peer_infos : ℕ → e.Body → Handler e → Peer e → Outcome e
  on_peer_infos now body h p =
      decoded (e.decode_peer_infos body)
        (λ infos.
          let reported = parsed e infos in
          returns none
            (record h {
              discovered_nodes = discover e reported h.discovered_nodes;
              connection_advisor = update_peers p.node_id reported now h.connection_advisor;
            })
            p)
        h p

  pub answer_end_point : e.Node → Handler e → Peer e → Outcome e
  answer_end_point n h p =
      let (conn, err) = e.send p.conn Code.end_point_update (e.encode_text (e.node_text n)) in
      returns (elim err [ none ↦ none | some x ↦ some (Error.write_failed x) ]) h
        (record p { conn = conn })

  pub on_get_end_point : Handler e → Peer e → Outcome e
  unfolding answer_end_point
  on_get_end_point h p = elim h.local_end_point [
    | none ↦ returns none h p
    | some n ↦ answer_end_point n h p
  ]

  pub on_end_point_update : ℕ → e.Body → Handler e → Peer e → Outcome e
  on_end_point_update now body h p =
      decoded (e.decode_text body)
        (λ text. elim (e.parse_node text) [
          | none ↦ returns none h p
          | some n ↦
              returns none h (record p { end_point = some (record { enode = n; timestamp = now }) })
        ])
        h p

  -- The `switch` of `handleMsg`
  pub dispatch : ℕ → ℕ → ℕ → e.Body → Handler e → Peer e → Outcome e
  unfolding on_progress on_txs on_tx_hashes on_peer_infos on_get_end_point on_end_point_update
  dispatch now later code body h p =
      if code == Code.handshake
      then returns (some Error.extra_status_msg) h p
      else if code == Code.progress
      then on_progress now later body h p
      else if code == Code.evm_txs
      then on_txs body h p
      else if code == Code.new_evm_tx_hashes
      then on_tx_hashes body h p
      else if member code skipped
      then returns none h p
      else if code == Code.peer_infos
      then on_peer_infos now body h p
      else if code == Code.get_end_point
      then on_get_end_point h p
      else if code == Code.end_point_update
      then on_end_point_update now body h p
      else returns (some Error.invalid_msg_code) h p

  abbrev pub released : ℕ → Outcome e → Outcome e
  released size out = do
    (h, p, hooked, err) ← out
    some (
      record h { msg_semaphore = e.release h.msg_semaphore (message_weight size) },
      p,
      hooked,
      err,
    )

  -- `handleMsg`
  unfoldable pub handle_msg : ℕ → ℕ → Read e → Handler e → Peer e → Outcome e
  unfolding dispatch
  handle_msg now later (failed x) h p = returns (some (Error.read_failed x)) h p
  handle_msg now later (received code size body) h p =
      if ltb e.max_msg_size size
      then returns (some Error.msg_too_large) h p
      else elim (e.try_acquire h.msg_semaphore (message_weight size)) [
        | none ↦ returns none h p
        | some s ↦ released size (dispatch now later code body (record h { msg_semaphore = s }) p)
      ]
