-- ===== src/Env.antt =====
-- What the gossip code takes from packages outside the repository: go-ethereum's transactions, RLP
-- encoding and p2p connection, lachesis-base's events and data semaphore. A hash (common.Hash,
-- hash.Event) and a node id are the numbers that their bytes spell; a time or a duration is a count
-- of nanoseconds.
pub mod Sample
pub mod Wire
use sonicpeer.Protocol.{PeerProgress, HandshakeData}
use sonicpeer.Base.{ℕ, ◌+◌, ◌-◌, ◌≤◌, ◌≡◌, Bool, List, ◌⊎◌, true, Option, none, some}

-- `dag.Metric`
pub record Metric : Type 0 where
  pub num : ℕ
  pub size : ℕ

pub record Env : Type 1 where
  -- types.Transaction: `Hash`, `Size`, `GasPrice`, and whether `types.Sender` accepts it
  pub Tx : Type 0
  pub tx_hash : Tx → ℕ
  pub tx_size : Tx → ℕ
  pub gas_price : Tx → ℕ
  pub has_sender : Tx → Bool
  -- inter.EventPayload and dag.Event: `ID`, `Size`, `Epoch`; and `Epoch` of an event's hash
  pub Event : Type 0
  pub event_id : Event → ℕ
  pub event_size : Event → ℕ
  pub event_epoch : Event → ℕ
  pub epoch_of : ℕ → ℕ
  -- datasemaphore.DataSemaphore: `TryAcquire` (none if it refuses) and `Release`
  pub Semaphore : Type 0
  pub try_acquire : Semaphore → Metric → Option Semaphore
  pub release : Semaphore → Metric → Semaphore
  -- p2p.MsgReadWriter with `p2p.Send`: the connection afterwards, and the error if there is one
  pub Conn : Type 0
  pub send : Conn → ℕ → List ℕ → Conn × Option ℕ
  -- rlp.EncodeToBytes, at the types that the code encodes; none if it fails
  pub encode_txs : List Tx → Option (List ℕ)
  pub encode_hashes : List ℕ → Option (List ℕ)
  pub encode_events : List Event → Option (List ℕ)
  pub encode_handshake : HandshakeData → Option (List ℕ)
  pub encode_progress : PeerProgress → Option (List ℕ)
  pub encode_raws : List (List ℕ) → Option (List ℕ)
  -- dagstream.Response and dagstream.Request, with their encodings
  pub Response : Type 0
  pub encode_response : Response → Option (List ℕ)
  pub Request : Type 0
  pub encode_request : Request → Option (List ℕ)
  -- the same for a string, which does not fail
  pub encode_text : List ℕ → List ℕ
  -- wlru.Cache: `Contains` and `Add` (with weight 1)
  pub Lru : Type 0
  pub lru_contains : Lru → ℕ → Bool
  pub lru_add : Lru → ℕ → Lru
  -- `idx.Epoch` of a 64-bit number
  pub to_epoch : ℕ → ℕ
  -- the payload of a message with `msg.Decode` at the types that the handler decodes; and
  -- inter.ProtocolMaxMsgSize
  pub Body : Type 0
  pub decode_progress : Body → Option PeerProgress
  pub decode_handshake : Body → Option HandshakeData
  pub decode_txs : Body → Option (List Tx)
  pub decode_hashes : Body → Option (List ℕ)
  pub decode_peer_infos : Body → Option (List (List ℕ))
  pub decode_text : Body → Option (List ℕ)
  pub max_msg_size : ℕ
  -- enode.Node: `ID`, `UnmarshalText` and `String`
  pub Node : Type 0
  pub node_id : Node → ℕ
  pub parse_node : List ℕ → Option Node
  pub node_text : Node → List ℕ

-- What `ReadMsg` gives: an error, or a message's code, size and body.
pub data Read (e : Env) : Type 0 where
  failed : ℕ → Read e
  received : ℕ → ℕ → e.Body → Read e

-- What datasemaphore.DataSemaphore documents: a granted request is held until it is released.
pub record SemaphoreLaws (e : Env) : Type 0 where
  pub held : e.Semaphore → Metric
  pub held-try_acquire :
      (s t : e.Semaphore) (m : Metric)
      → e.try_acquire s m ≡ some t
      → (held t).num ≡ (held s).num + m.num × ((held t).size ≡ (held s).size + m.size)
  pub held-release :
      (s : e.Semaphore) (m : Metric)
      → m.num ≤ (held s).num
      → m.size ≤ (held s).size
      → (held (e.release s m)).num + m.num ≡ (held s).num
        × ((held (e.release s m)).size + m.size ≡ (held s).size)

-- What wlru.Cache documents: what was just added is there, and nothing else has come in.
pub record LruLaws (e : Env) : Type 0 where
  pub contains-add : (c : e.Lru) (h : ℕ) → e.lru_contains (e.lru_add c h) h ≡ true
  pub add-new :
      (c : e.Lru) (h k : ℕ)
      → e.lru_contains (e.lru_add c h) k ≡ true
      → (h ≡ k) ⊎ (e.lru_contains c k ≡ true)

-- What rlp documents: the payload of what was encoded decodes to it.
pub record WireLaws (e : Env) : Type 0 where
  pub payload : List ℕ → e.Body
  pub decode-encode_handshake :
      (x : HandshakeData) (raw : List ℕ)
      → e.encode_handshake x ≡ some raw
      → e.decode_handshake (payload raw) ≡ some x
  pub decode-encode_txs :
      (txs : List e.Tx) (raw : List ℕ)
      → e.encode_txs txs ≡ some raw
      → e.decode_txs (payload raw) ≡ some txs
  pub decode-encode_hashes :
      (hashes : List ℕ) (raw : List ℕ)
      → e.encode_hashes hashes ≡ some raw
      → e.decode_hashes (payload raw) ≡ some hashes

-- datasemaphore.New for a limit, and wlru.New for a greatest weight and a greatest number of items,
-- `none` if it fails.
pub record Makers (e : Env) : Type 0 where
  pub new_semaphore : Metric → e.Semaphore
  pub new_lru : ℕ → ℕ → Option e.Lru

-- What datasemaphore documents of a new semaphore: it holds nothing, and it grants what its limit
-- allows.
pub record MakersLaws (e : Env) (laws : SemaphoreLaws e) (makers : Makers e) : Type 0 where
  pub held-new_semaphore :
      (limit : Metric)
      → (laws.held (makers.new_semaphore limit)).num ≡ 0
        × ((laws.held (makers.new_semaphore limit)).size ≡ 0)
  pub grants :
      (limit m : Metric)
      → m.num ≤ limit.num
      → m.size ≤ limit.size
      → (s : e.Semaphore) × (e.try_acquire (makers.new_semaphore limit) m ≡ some s)

-- What datasemaphore documents of the limit of a semaphore: it is the one that it was made with, a
-- granted request is within it, and a request that is within it is granted.
pub record LimitLaws (e : Env) (laws : SemaphoreLaws e) (makers : Makers e) : Type 0 where
  pub limit : e.Semaphore → Metric
  pub limit-new_semaphore : (m : Metric) → limit (makers.new_semaphore m) ≡ m
  pub limit-try_acquire :
      (s t : e.Semaphore) (m : Metric) → e.try_acquire s m ≡ some t → limit t ≡ limit s
  pub limit-release : (s : e.Semaphore) (m : Metric) → limit (e.release s m) ≡ limit s
  pub within :
      (s t : e.Semaphore) (m : Metric)
      → e.try_acquire s m ≡ some t
      → (laws.held t).num ≤ (limit s).num × ((laws.held t).size ≤ (limit s).size)
  pub granted :
      (s : e.Semaphore) (m : Metric)
      → (laws.held s).num + m.num ≤ (limit s).num
      → (laws.held s).size + m.size ≤ (limit s).size
      → (t : e.Semaphore) × (e.try_acquire s m ≡ some t)
