-- ===== src/PeerSet.antt =====
-- pkg/gossip/peerset.go: the registered peers by their id. Each method holds the lock of the set, so it
-- is one step. A peer stands in the set as the value that its pointer points to, since no other
-- pointer in the set points to it; `update` is a write through that pointer.
pub mod Keyed
pub mod Directory
pub mod Loops
mod Tests
use sonicpeer.Base.{
  ℕ, suc, ◌+◌, Bool, true, false, not, List, [], ◌∷◌, ◌++◌, map, Option, none, some, if◌then◌else◌,
  length, lookup, store, erase,
}
use sonicpeer.Env.{Env}
use sonicpeer.Known
use sonicpeer.Protocol.{Error}
use sonicpeer.Peer.{Peer, interested_in, disconnect}

pub record PeerSet (e : Env) : Type 0 where
  pub peers : List (ℕ × Peer e)
  pub closed : Bool

module _ {e : Env} where
  -- `newPeerSet`
  unfoldable pub new_peer_set : PeerSet e
  new_peer_set = record { peers = []; closed = false }

  -- `RegisterPeer`: the set afterwards, and the error if there is one
  unfoldable pub register_peer : Peer e → PeerSet e → PeerSet e × Option Error
  register_peer p ps =
      if ps.closed then (ps, some Error.peer_set_closed) else elim (lookup p.id ps.peers) [
        | some _ ↦ (ps, some Error.peer_already_registered)
        | none ↦ (record ps { peers = store p.id p ps.peers }, none)
      ]

  -- `UnregisterPeer`
  unfoldable pub unregister_peer : ℕ → PeerSet e → PeerSet e × Option Error
  unregister_peer id ps = elim (lookup id ps.peers) [
    | none ↦ (ps, some Error.peer_not_registered)
    | some _ ↦ (record ps { peers = erase id ps.peers }, none)
  ]

  -- `Peer`
  unfoldable pub peer : ℕ → PeerSet e → Option (Peer e)
  peer id ps = lookup id ps.peers

  -- The loops over the map, which count or collect the peers that pass a test.
  pub count_if : (Peer e → Bool) → ℕ → List (ℕ × Peer e) → ℕ
  count_if test num [] = num
  count_if test num ((_, p) ∷ m) = count_if test (if test p then num + 1 else num) m

  pub append_if : (Peer e → Bool) → List (Peer e) → List (ℕ × Peer e) → List (Peer e)
  append_if test list [] = list
  append_if test list ((_, p) ∷ m) = append_if test (if test p then list ++ p ∷ [] else list) m

  -- `UselessNum`
  unfoldable pub useless_num : PeerSet e → ℕ
  unfolding count_if
  useless_num ps = count_if (λ p. p.useless) 0 ps.peers

  -- `PeersWithoutEvent`
  unfoldable pub peers_without_event : ℕ → PeerSet e → List (Peer e)
  unfolding append_if
  peers_without_event h ps = append_if (λ p. interested_in p h) [] ps.peers

  -- `PeersWithoutTx`
  unfoldable pub peers_without_tx : ℕ → PeerSet e → List (Peer e)
  unfolding append_if
  peers_without_tx h ps = append_if (λ p. not (Known.contains p.known_txs h)) [] ps.peers

  -- `ListTo`
  unfoldable pub list_to : List (Peer e) → PeerSet e → List (Peer e)
  unfolding append_if
  list_to dst ps = append_if (λ p. true) dst ps.peers

  -- `List`
  unfoldable pub list : PeerSet e → List (Peer e)
  unfolding append_if
  list ps = append_if (λ p. true) [] ps.peers

  -- `Len`
  unfoldable pub len : PeerSet e → ℕ
  len ps = length ps.peers

  pub disconnect_all : List (ℕ × Peer e) → List (ℕ × Peer e)
  disconnect_all [] = []
  disconnect_all ((id, p) ∷ m) = (id, disconnect Error.disc_quitting p) ∷ disconnect_all m

  -- `Close`
  unfoldable pub close : PeerSet e → PeerSet e
  unfolding disconnect_all
  close ps = record { peers = disconnect_all ps.peers; closed = true }

  -- A write to the peer behind an id.
  unfoldable pub update : Peer e → PeerSet e → PeerSet e
  update p ps = elim (lookup p.id ps.peers) [
    | none ↦ ps
    | some _ ↦ record ps { peers = store p.id p ps.peers }
  ]
