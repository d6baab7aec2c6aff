-- ===== src/Peer/Sync/Versions.antt =====
-- To which peers the requests for peer infos and end points go.
use sonicpeer.Base.{ℕ, ◌≡◌, [], ◌∷◌, none, arith, if◌then◌else◌, ltb}
use sonicpeer.Env.{Env}
use sonicpeer.Protocol.{protocol_lengths}
use sonicpeer.Protocol.Code
use sonicpeer.Peer.{Peer}
use sonicpeer.Peer.Sync.{send, empty_list, send_peer_info_request, send_end_point_update_request}

module _ {e : Env} where
  -- A request for peer infos or for the end point goes to a peer exactly if the version of the
  -- protocol that the peer runs has the request's message; otherwise nothing is sent, and that is no
  -- error.
  requests-versions :
      (version : ℕ) (p : Peer e)
      → p.caps ≡ version ∷ []
      → (send_peer_info_request p ≡ (
          if ltb Code.get_peer_infos (protocol_lengths version)
          then send Code.get_peer_infos empty_list p
          else (p, none)))
        × (send_end_point_update_request p ≡ (
            if ltb Code.get_end_point (protocol_lengths version)
            then send Code.get_end_point empty_list p
            else (p, none)))
  unfolding send_peer_info_request send_end_point_update_request
  requests-versions version p runs = (ground arith, ground arith)
