-- ===== src/Protocol/Code.antt =====
-- pkg/gossip/protocol.go: the numbers of the messages, and the protocol's versions with the number of
-- messages that each has.
use sonicpeer.Base.{ℕ}

abbrev pub handshake : ℕ
handshake = 0

abbrev pub progress : ℕ
progress = 1

abbrev pub evm_txs : ℕ
evm_txs = 2

abbrev pub new_evm_tx_hashes : ℕ
new_evm_tx_hashes = 3

abbrev pub get_evm_txs : ℕ
get_evm_txs = 4

abbrev pub new_event_ids : ℕ
new_event_ids = 5

abbrev pub get_events : ℕ
get_events = 6

abbrev pub events : ℕ
events = 7

abbrev pub request_events_stream : ℕ
request_events_stream = 8

abbrev pub events_stream_response : ℕ
events_stream_response = 9

abbrev pub get_peer_infos : ℕ
get_peer_infos = 10

abbrev pub peer_infos : ℕ
peer_infos = 11

abbrev pub get_end_point : ℕ
get_end_point = 12

abbrev pub end_point_update : ℕ
end_point_update = 13
