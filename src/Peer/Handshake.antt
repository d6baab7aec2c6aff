-- ===== src/Peer/Handshake.antt =====
-- pkg/gossip/peer.go: Handshake. One goroutine sends the handshake and the progress of the node, the
-- other one reads the handshake of the peer; each delivers errors, or nil, on a channel from which
-- `Handshake` takes two values at most. The order in which the values arrive, and the timeout, are an
-- argument.
pub mod Agreed
pub mod Mutual
mod Tests
use sonicpeer.Base.{
  ℕ, zero, suc, ◌%◌, ◌^◌, Bool, not, List, [], ◌∷◌, ◌++◌, Option, none, some, if◌then◌else◌, ltb,
  ◌==◌,
}
use sonicpeer.Env.{Env, Read, failed, received}
use sonicpeer.Protocol.{Error, PeerProgress, HandshakeData}
use sonicpeer.Protocol.Code
use sonicpeer.Peer.{Peer}
use sonicpeer.Peer.Sync.{send, send_progress}

-- The checks of `readStatus` on the decoded handshake.
unfoldable pub check_handshake : ℕ → ℕ → ℕ → HandshakeData → Option Error
check_handshake version network genesis h =
    let network_id = if h.network_id == 0 then network else h.network_id in
    if not (h.genesis == genesis)
    then some Error.genesis_mismatch
    else if not (network_id == network)
    then some Error.network_id_mismatch
    else if not (h.protocol_version == version)
    then some Error.protocol_version_mismatch
    else none

module _ {e : Env} where
  -- The progress is sent last.
  abbrev pub ends_with_progress :
      PeerProgress → List (Option Error) → Peer e → Peer e × List (Option Error)
  ends_with_progress progress before p =
      let (p', err) = send_progress progress p in (p', before ++ err ∷ [])

  -- The handshake of the node
  abbrev pub own_handshake : ℕ → ℕ → Peer e → HandshakeData
  own_handshake network genesis p = record {
    protocol_version = p.version % 2 ^ 32;
    network_id = network;
    genesis = genesis;
  }

  -- The goroutine that sends: the values that it delivers, in order. After a write that failed it
  -- delivers the error and goes on.
  unfoldable pub send_handshake : ℕ → PeerProgress → ℕ → Peer e → Peer e × List (Option Error)
  unfolding send send_progress
  send_handshake network progress genesis p =
      elim (e.encode_handshake (own_handshake network genesis p)) [
        | none ↦ (p, some Error.encode_failed ∷ [])
        | some raw ↦
            let (p', err) = send Code.handshake raw p in
            elim err [
              | some x ↦ ends_with_progress progress (some x ∷ []) p'
              | none ↦ ends_with_progress progress [] p'
            ]
      ]

  -- `readStatus`
  unfoldable pub read_status : ℕ → ℕ → Read e → Peer e → Option Error
  unfolding check_handshake
  read_status network genesis (failed x) p = some (Error.read_failed x)
  read_status network genesis (received code size body) p =
      if not (code == Code.handshake)
      then some Error.no_status_msg
      else if ltb e.max_msg_size size
      then some Error.msg_too_large
      else elim (e.decode_handshake body) [
        | none ↦ some Error.decode
        | some h ↦ check_handshake p.version network genesis h
      ]

-- What the `select` of `Handshake` receives.
pub data Arrival : Type 0 where
  value : Option Error → Arrival
  timeout : Arrival

-- The loop of `Handshake`, for the rounds that are left. `none`: it still waits.
unfoldable pub await : ℕ → List Arrival → Option (Option Error)
await zero arrivals = some none
await (suc n) [] = none
await (suc n) (value none ∷ arrivals) = await n arrivals
await (suc n) (value (some x) ∷ arrivals) = some (some x)
await (suc n) (timeout ∷ arrivals) = some (some Error.disc_read_timeout)

-- `Handshake`
unfoldable pub handshake : List Arrival → Option (Option Error)
unfolding await
handshake arrivals = await 2 arrivals
