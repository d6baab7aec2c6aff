-- ===== src/Protocol.antt =====
-- pkg/gossip/protocol.go: versions, message codes, error codes and the wire types of the protocol.
-- The names of the codes are in `Protocol.Code`, and their texts in `Protocol.Text`.
pub mod Code
pub mod Text
use sonicpeer.Base.{ℕ, ◌+◌, List, [], ◌∷◌, Bool, ◌&&◌, ◌||◌, if◌then◌else◌, ltb, ◌==◌, not}

-- `handshakeData`
pub record HandshakeData : Type 0 where
  pub protocol_version : ℕ
  pub network_id : ℕ
  pub genesis : ℕ

-- `PeerProgress`
pub record PeerProgress : Type 0 where
  pub epoch : ℕ
  pub last_block_idx : ℕ
  pub last_block_atropos : ℕ
  pub highest_lamport : ℕ

-- The error codes that the gossip code reports, and the errors of packages outside it: a read of a
-- message that fails, a write that fails, and the reasons for a disconnect of the p2p package.
pub data Error : Type 0 where
  msg_too_large decode invalid_msg_code protocol_version_mismatch network_id_mismatch : Error
  genesis_mismatch no_status_msg extra_status_msg suspended_peer un_synced_peer : Error
  empty_message : Error
  peer_set_closed peer_already_registered peer_not_registered : Error
  disc_useless_peer disc_too_many_peers disc_quitting disc_read_timeout : Error
  read_failed write_failed : ℕ → Error
  encode_failed : Error

-- `(*PeerProgress).Less`
unfoldable pub less : PeerProgress → PeerProgress → Bool
less a b =
    if not (a.epoch == b.epoch) then ltb a.epoch b.epoch else ltb a.last_block_idx b.last_block_idx

-- `ProtocolVersions`, the primary one first
abbrev pub protocol_versions : List ℕ
protocol_versions = 65 ∷ 64 ∷ 62 ∷ []

-- `protocolLengths`; a version that is not in the map has no messages.
abbrev pub protocol_lengths : ℕ → ℕ
protocol_lengths version =
    if version == 65
    then Code.end_point_update + 1
    else if version == 64
    then Code.peer_infos + 1
    else if version == 62
    then Code.events_stream_response + 1
    else 0
