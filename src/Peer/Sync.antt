-- ===== src/Peer/Sync.antt =====
-- pkg/gossip/peer.go: the sends that wait for the connection. Each returns the peer with its connection
-- afterwards, and the error if there is one; `none` is a panic of the caches.
pub mod Marked
pub mod Versions
use sonicpeer.Base.{
  ℕ, Bool, true, false, List, [], ◌∷◌, map, Option, none, some, ◌>>=◌, if◌then◌else◌, member, ◌||◌,
}
use sonicpeer.Env.{Env}
use sonicpeer.Protocol.{Error, PeerProgress}
use sonicpeer.Protocol.Code
use sonicpeer.Peer.{Peer, mark_transactions, mark_events}
use sonicpeer.Peer.Async.{mark_if}
use sonicpeer.Peer.Outbox.{async_send_encoded_item, enqueue_send_encoded_item}

abbrev pub write_error : Option ℕ → Option Error
write_error none = none
write_error (some x) = some (Error.write_failed x)

-- `RunningCap` of the p2p package, for the one protocol of the node
abbrev pub running_cap : List ℕ → List ℕ → Bool
running_cap caps [] = false
running_cap caps (v ∷ versions) = member v caps || running_cap caps versions

-- The bytes of `rlp.RawValue{0xc0}`, an empty list
abbrev pub empty_list : List ℕ
empty_list = 0xc0 ∷ []

module _ {e : Env} where
  -- `p2p.Send` on the connection of the peer
  unfoldable pub send : ℕ → List ℕ → Peer e → Peer e × Option Error
  send code raw p =
      let (conn, err) = e.send p.conn code raw in (record p { conn = conn }, write_error err)

  -- What is encoded goes out; what cannot be encoded is an error.
  abbrev pub send_encoded : ℕ → Option (List ℕ) → Peer e → Peer e × Option Error
  send_encoded code none p = (p, some Error.encode_failed)
  send_encoded code (some raw) p = send code raw p

  -- The hashes are marked first.
  abbrev pub mark_and_send :
      (List ℕ → Peer e → Option (Peer e))
      → List ℕ
      → ℕ
      → Option (List ℕ)
      → Peer e
      → Option (Peer e × Option Error)
  mark_and_send mark hs code encoded p = do p' ← mark hs p; some (send_encoded code encoded p')

  -- `SendTransactionHashes`
  unfoldable pub send_transaction_hashes : List ℕ → Peer e → Option (Peer e × Option Error)
  send_transaction_hashes txids =
      mark_and_send mark_transactions txids Code.new_evm_tx_hashes (e.encode_hashes txids)

  -- `SendEventIDs`
  unfoldable pub send_event_ids : List ℕ → Peer e → Option (Peer e × Option Error)
  send_event_ids hashes =
      mark_and_send mark_events hashes Code.new_event_ids (e.encode_hashes hashes)

  -- `SendEvents`
  unfoldable pub send_events : List e.Event → Peer e → Option (Peer e × Option Error)
  send_events events =
      mark_and_send mark_events (map e.event_id events) Code.events (e.encode_events events)

  -- `SendEventsRLP`
  unfoldable pub send_events_rlp : List (List ℕ) → List ℕ → Peer e → Option (Peer e × Option Error)
  send_events_rlp events ids = mark_and_send mark_events ids Code.events (e.encode_raws events)

  -- `SendEventsStream`
  unfoldable pub send_events_stream : e.Response → List ℕ → Peer e → Option (Peer e × Option Error)
  send_events_stream r ids =
      mark_and_send mark_events ids Code.events_stream_response (e.encode_response r)

  -- `EnqueueSendEventsRLP`; the result says whether the call returns, as that of
  -- `enqueue_send_encoded_item` does.
  unfoldable pub enqueue_send_events_rlp :
      Bool → (Peer e → Peer e) → List (List ℕ) → List ℕ → Peer e → Option (Peer e × Bool)
  enqueue_send_events_rlp joins meanwhile events ids p = elim (e.encode_raws events) [
    | none ↦ some (p, true)
    | some raw ↦
        mark_if mark_events ids (enqueue_send_encoded_item joins meanwhile raw Code.events p)
  ]

  -- `AsyncSendProgress`
  unfoldable pub async_send_progress : Bool → PeerProgress → Peer e → Peer e
  async_send_progress picks_term progress p = elim (e.encode_progress progress) [
    | none ↦ p
    | some raw ↦ (async_send_encoded_item picks_term raw Code.progress p).0
  ]

  -- `RequestEventsStream`
  unfoldable pub request_events_stream : e.Request → Peer e → Peer e × Option Error
  request_events_stream r = send_encoded Code.request_events_stream (e.encode_request r)

  -- `SendProgress`
  unfoldable pub send_progress : PeerProgress → Peer e → Peer e × Option Error
  send_progress progress = send_encoded Code.progress (e.encode_progress progress)

  -- `SendPeerInfoRequest`
  unfoldable pub send_peer_info_request : Peer e → Peer e × Option Error
  unfolding send
  send_peer_info_request p =
      if running_cap p.caps (64 ∷ 65 ∷ []) then send Code.get_peer_infos empty_list p else (p, none)

  -- `SendEndPointUpdateRequest`
  unfoldable pub send_end_point_update_request : Peer e → Peer e × Option Error
  unfolding send
  send_end_point_update_request p =
      if running_cap p.caps (65 ∷ []) then send Code.get_end_point empty_list p else (p, none)
