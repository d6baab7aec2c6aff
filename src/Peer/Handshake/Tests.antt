-- ===== src/Peer/Handshake/Tests.antt =====
-- The theorems about the handshake, at a sample peer, and handshakes that are refused.
use sonicpeer.Base.{arith, ℕ, ◌≡◌, refl, sym, ap, ◌↔◌, ◌⊎◌, inl, inr, [], ◌∷◌, Option, some, none}
use sonicpeer.Env.{Read, received}
use sonicpeer.Env.Sample.{env}
use sonicpeer.Env.Sample
use sonicpeer.Protocol.{Error}
use sonicpeer.Env.Wire.{wire_env, wire_env-WireLaws, payload-wire}
use sonicpeer.Peer.Sample.{sample_peer, wire_peer}
use sonicpeer.Peer.Sync.{send, send_progress}
use sonicpeer.Peer.Handshake.Mutual.{Side, Hears, Speaks, handshake_agree}
use sonicpeer.Peer.Handshake.{
  send_handshake, check_handshake, read_status, value, timeout, handshake,
}
use sonicpeer.Peer.Handshake.Agreed.{IsAnnounced, handshake-agrees}

-- A handshake of the network 0, which stands for any, and one of another chain.
abbrev greeting : ℕ → ℕ → Read env
greeting network genesis =
    received 0 100
      (Sample.handshake (record { protocol_version = 65; network_id = network; genesis = genesis }))

accepts_network_zero : read_status 146 77 (greeting 0 77) sample_peer ≡ none
unfolding read_status
accepts_network_zero = refl

refuses_genesis : read_status 146 77 (greeting 146 78) sample_peer ≡ some Error.genesis_mismatch
unfolding read_status
refuses_genesis = refl

-- The peer's message comes first, then the timeout.
late : handshake (value none ∷ timeout ∷ value none ∷ []) ≡ some (some Error.disc_read_timeout)
unfolding handshake
late = refl

handshake-agrees_example :
    (result : Option Error) × (handshake (value none ∷ value none ∷ []) ≡ some result)
    × (result ≡ none
        → IsAnnounced 146 sample_peer.progress 77 sample_peer
          × (read_status 146 77 (greeting 0 77) sample_peer ≡ none))
    × (IsAnnounced 146 sample_peer.progress 77 sample_peer
          × (read_status 146 77 (greeting 0 77) sample_peer ≡ none)
        → (result ≡ none) ⊎ (result ≡ some Error.disc_read_timeout))
unfolding read_status send_handshake
handshake-agrees_example =
    handshake-agrees 146 sample_peer.progress 77 (greeting 0 77) sample_peer
      (value none ∷ value none ∷ []) (inr ([], refl, inl ([], refl, (refl, refl))))

-- A node of network 146 that hears another one.
abbrev side : ℕ → Side wire_env
side genesis = record {
  network = 146;
  genesis = genesis;
  progress = record {
    epoch = 7;
    last_block_idx = 100;
    last_block_atropos = 3;
    highest_lamport = 0;
  };
  peer = wire_peer;
  reads = received 0 3 (65 ∷ 146 ∷ 77 ∷ []);
  arrivals = value none ∷ value none ∷ [];
}

side-Speaks : Speaks wire_env-WireLaws (side 77)
unfolding send_handshake send_progress send read_status check_handshake
side-Speaks = record {
  announced = (65 ∷ 146 ∷ 77 ∷ [], 7 ∷ 100 ∷ [], refl, refl, refl, refl);
  delivers = inl ([], refl, inr ([], refl, (refl, refl)));
  in_time = tt;
}

handshake_agree_example :
    handshake (value none ∷ value none ∷ []) ≡ some none
    ↔ handshake (value none ∷ value none ∷ []) ≡ some none
handshake_agree_example =
    let hears : Hears wire_env-WireLaws (side 77) (side 77) =
      (65 ∷ 146 ∷ 77 ∷ [], 3, refl, omega arith, ap (received 0 3) (sym (payload-wire _))) in
    handshake_agree wire_env-WireLaws (side 77) (side 77) side-Speaks side-Speaks hears hears
      (λ h. omega (arith, h)) (λ h. omega (arith, h)) (omega arith) (omega arith)
