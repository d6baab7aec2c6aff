-- ===== src/Handler/Admission.antt =====
-- pkg/gossip/handler.go: handle, the life cycle of a peer. `is_banned` is what `isUseless` finds in the
-- filter of banned nodes, and `shaken` what `Handshake` returns. No other session runs between the
-- steps of this one.
pub mod Batched
pub mod Limited
pub mod Ended
pub mod Restored
mod Tests
use sonicpeer.Base.{
  ℕ, ◌/◌, Bool, true, false, not, ◌&&◌, List, [], ◌∷◌, ◌++◌, Option, none, some, if◌then◌else◌, leb,
  ◌>>=◌,
}
use sonicpeer.Env.{Env, Read}
use sonicpeer.Protocol.{Error}
use sonicpeer.Peer.{Peer, disconnect, set_useless}
use sonicpeer.Peer.Sync.{send_end_point_update_request, send_peer_info_request}
use sonicpeer.PeerSet.{peer, register_peer, unregister_peer, useless_num, len, update}
use sonicpeer.Handler.{Handler}
use sonicpeer.Handler.Messages.{handle_msg}

-- How the part of `handle` above its loop ends: the peer is in, or an error is returned, and the Bool
-- says whether the node is banned for it.
pub data Entry (e : Env) : Type 0 where
  enters : Handler e → Peer e → Entry e
  refused : Peer e → Bool → Error → Entry e

-- A message of a peer, with the two readings of the clock while it is handled.
pub record Incoming (e : Env) : Type 0 where
  pub now : ℕ
  pub later : ℕ
  pub read : Read e

module _ {e : Env} where
  -- `unregisterPeer`
  unfoldable pub unregister : ℕ → Handler e → Handler e
  unregister id h = elim (peer id h.peers) [
    | none ↦ h
    | some _ ↦ record h { peers = (unregister_peer id h.peers).0 }
  ]

  -- `removePeer`
  unfoldable pub remove_peer : ℕ → Handler e → Handler e
  remove_peer id h = elim (peer id h.peers) [
    | none ↦ h
    | some p ↦ record h { peers = update (disconnect Error.disc_useless_peer p) h.peers }
  ]

  -- The test for useless peers, and the test for too many.
  abbrev pub too_useless : Bool → Handler e → Peer e → Bool
  too_useless is_banned h p =
      not p.trusted && is_banned && leb (h.max_peers / 2) (useless_num h.peers)

  abbrev pub too_many : Handler e → Peer e → Bool
  too_many h p = leb h.max_peers (len h.peers) && not p.trusted

  abbrev pub judged : Bool → Peer e → Peer e
  judged is_banned p = if not p.trusted && is_banned then set_useless p else p

  -- The registration of a peer that has passed the tests.
  unfoldable pub registers : Handler e → Peer e → Entry e
  registers h p =
      let (ps, err) = register_peer p h.peers in
      elim err [ none ↦ enters (record h { peers = ps }) p | some x ↦ refused p false x ]

  -- The part of `handle` up to the registration
  unfoldable pub admit : Bool → Option Error → Handler e → Peer e → Entry e
  unfolding registers
  admit is_banned shaken h p =
      if too_useless is_banned h p then refused p false Error.disc_useless_peer else elim shaken [
        | some x ↦ refused (judged is_banned p) (not is_banned) x
        | none ↦
            if too_many h p
            then refused (judged is_banned p) false Error.disc_too_many_peers
            else registers h (judged is_banned p)
      ]

  -- The first requests, whose errors are logged only
  unfoldable pub welcome : Peer e → Peer e
  welcome p = (send_peer_info_request (send_end_point_update_request p).0).0

  -- A write to the registered peer
  abbrev pub writes : Peer e → Handler e → Handler e
  writes p h = record h { peers = update p h.peers }

  -- The loop of `handle`, for the messages that come in; with no error it still runs.
  pub serve :
      List (Incoming e)
      → Handler e
      → Peer e
      → Option (Handler e × Peer e × List e.Tx × Option Error)
  serve [] h p = some (h, p, [], none)
  serve (m ∷ ms) h p = do
    (h', p', hooked, err) ← handle_msg m.now m.later m.read h p
    elim err [
      | some x ↦ some (writes p' h', p', hooked, some x)
      | none ↦ do
        (h'', p'', more, err') ← serve ms (writes p' h') p'
        some (h'', p'', hooked ++ more, err')
    ]

  -- The loop with the deferred call behind it
  unfoldable pub session :
      List (Incoming e)
      → Handler e
      → Peer e
      → Option (Handler e × Peer e × List e.Tx × Option Error)
  unfolding serve unregister
  session messages h p = do
    (h', p', hooked, err) ← serve messages h p
    elim err [
      | none ↦ some (h', p', hooked, none)
      | some x ↦ some (unregister p.id h', p', hooked, some x)
    ]

  -- `handle`; the Bool says whether it has banned the node.
  unfoldable pub handle :
      Bool
      → Option Error
      → List (Incoming e)
      → Handler e
      → Peer e
      → Option (Handler e × Peer e × List e.Tx × Bool × Option Error)
  unfolding admit welcome session
  handle is_banned shaken messages h p = elim (admit is_banned shaken h p) [
    | refused p' bans x ↦ some (h, p', [], bans, some x)
    | enters h' p' ↦ do
      let p'' = welcome p'
      (h'', q, hooked, err) ← session messages (writes p'' h') p''
      some (h'', q, hooked, false, err)
  ]
