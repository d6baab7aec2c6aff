-- ===== src/Env/Wire.antt =====
-- Concrete packages whose encodings are decoded again, at which the theorems on two nodes are applied.
use sonicpeer.Base.{
  ◌>>=◌, ℕ, ◌≡◌, refl, sym, ap, ◌∙◌, Bool, true, false, List, [], ◌∷◌, Option, none, some,
  some-injective, if◌then◌else◌, ◌==◌,
}
use sonicpeer.Env.{Env, SemaphoreLaws, LruLaws, WireLaws, Makers, LimitLaws}
use sonicpeer.Env.Sample.{
  SampleTx, Counting, env, env-SemaphoreLaws, env-LruLaws, makers, makers-LimitLaws, limit-makers,
}
use sonicpeer.Protocol.{HandshakeData}

abbrev pub tx_bytes : List SampleTx → List ℕ
tx_bytes [] = []
tx_bytes (tx ∷ txs) = tx.hash ∷ tx.size ∷ tx.price ∷ (if tx.signed then 1 else 0) ∷ tx_bytes txs

abbrev pub read_txs : List ℕ → Option (List SampleTx)
read_txs [] = some []
read_txs (hash ∷ size ∷ price ∷ signed ∷ rest) = do
  txs ← read_txs rest
  some (record { hash = hash; size = size; price = price; signed = signed == 1 } ∷ txs)
read_txs _ = none

abbrev pub read_handshake : List ℕ → Option HandshakeData
read_handshake (version ∷ network ∷ genesis ∷ []) =
    some (record { protocol_version = version; network_id = network; genesis = genesis })
read_handshake _ = none

abbrev pub wire_env : Env
wire_env = record env {
  encode_txs = λ txs. some (tx_bytes txs);
  Body = List ℕ;
  decode_progress = λ b. none;
  decode_handshake = read_handshake;
  decode_txs = read_txs;
  decode_hashes = λ b. some b;
  decode_peer_infos = λ b. none;
  decode_text = λ b. none;
}

bit : (b : Bool) → ((if b then 1 else 0) == 1) ≡ b
bit true = refl
bit false = refl

read_txs-tx_bytes : (txs : List SampleTx) → read_txs (tx_bytes txs) ≡ some txs
read_txs-tx_bytes [] = refl
read_txs-tx_bytes (tx ∷ txs) =
    rw (read_txs-tx_bytes txs) (ap (λ b. some (record tx { signed = b } ∷ txs)) (bit tx.signed))

pub wire_env-WireLaws : WireLaws wire_env
wire_env-WireLaws = record {
  payload = λ raw. raw;
  decode-encode_handshake = λ x raw h. ap read_handshake (sym (some-injective h));
  decode-encode_txs = λ txs raw h. ap read_txs (sym (some-injective h)) ∙ read_txs-tx_bytes txs;
  decode-encode_hashes = λ hashes raw h. sym h;
}

pub payload-wire : (raw : List ℕ) → wire_env-WireLaws.payload raw ≡ raw
unfolding wire_env-WireLaws
payload-wire raw = refl

pub wire_env-LruLaws : LruLaws wire_env
wire_env-LruLaws = record { contains-add = env-LruLaws.contains-add; add-new = env-LruLaws.add-new }

pub wire_env-SemaphoreLaws : SemaphoreLaws wire_env
wire_env-SemaphoreLaws = record {
  held = env-SemaphoreLaws.held;
  held-try_acquire = env-SemaphoreLaws.held-try_acquire;
  held-release = env-SemaphoreLaws.held-release;
}

abbrev pub wire_makers : Makers wire_env
wire_makers = record { new_semaphore = makers.new_semaphore; new_lru = makers.new_lru }

pub wire_env-LimitLaws : LimitLaws wire_env wire_env-SemaphoreLaws wire_makers
unfolding wire_env-SemaphoreLaws
wire_env-LimitLaws = record {
  limit = makers-LimitLaws.limit;
  limit-new_semaphore = makers-LimitLaws.limit-new_semaphore;
  limit-try_acquire = makers-LimitLaws.limit-try_acquire;
  limit-release = makers-LimitLaws.limit-release;
  within = makers-LimitLaws.within;
  granted = makers-LimitLaws.granted;
}

-- What they hold, and their limit, are the fields of a semaphore.
pub held-wire : (s : Counting) → wire_env-SemaphoreLaws.held s ≡ s.used
unfolding wire_env-SemaphoreLaws env-SemaphoreLaws
held-wire s = refl

pub limit-wire : (s : Counting) → wire_env-LimitLaws.limit s ≡ s.limit
unfolding wire_env-LimitLaws
limit-wire s = limit-makers s
