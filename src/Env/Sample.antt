-- ===== src/Env/Sample.antt =====
-- Concrete packages, at which the theorems are applied: transactions and events are records, a
-- semaphore counts up to a limit, a connection logs what is sent and refuses what its flag says.
use sonicpeer.Base.{
  ℕ, ◌+◌, ◌-◌, ◌*◌, ◌%◌, ◌^◌, Bool-cases, inl, inr, ◌≤◌, ◌≡◌, refl, Bool, true, ◌&&◌, List, [], ◌∷◌,
  ◌++◌, none, some, arith, if◌then◌else◌, leb, member, insert, length,
}
use sonicpeer.Env.{Metric, Env, SemaphoreLaws, LruLaws, Makers, MakersLaws, LimitLaws}
use sonicpeer.Protocol.{PeerProgress, HandshakeData}

pub record SampleTx : Type 0 where
  pub hash : ℕ
  pub size : ℕ
  pub price : ℕ
  pub signed : Bool

pub record SampleEvent : Type 0 where
  pub id : ℕ
  pub size : ℕ

pub data SampleBody : Type 0 where
  progress : PeerProgress → SampleBody
  handshake : HandshakeData → SampleBody
  txs : List SampleTx → SampleBody
  hashes : List ℕ → SampleBody
  infos : List (List ℕ) → SampleBody
  text : List ℕ → SampleBody

pub record Counting : Type 0 where
  pub used : Metric
  pub limit : Metric

pub record Wire : Type 0 where
  pub sent : List (ℕ × List ℕ)
  pub broken : Bool

abbrev fits : Counting → Metric → Bool
fits s m = leb (s.used.num + m.num) s.limit.num && leb (s.used.size + m.size) s.limit.size

abbrev grown : Counting → Metric → Counting
grown s m = record s { used = record { num = s.used.num + m.num; size = s.used.size + m.size } }

abbrev shrunk : Counting → Metric → Counting
shrunk s m = record s { used = record { num = s.used.num - m.num; size = s.used.size - m.size } }

abbrev pub env : Env
env = record {
  Tx = SampleTx;
  tx_hash = λ t. t.hash;
  tx_size = λ t. t.size;
  gas_price = λ t. t.price;
  has_sender = λ t. t.signed;
  Event = SampleEvent;
  event_id = λ x. x.id;
  event_size = λ x. x.size;
  event_epoch = λ x. 7;
  epoch_of = λ h. 7;
  Semaphore = Counting;
  try_acquire = λ s m. if fits s m then some (grown s m) else none;
  release = shrunk;
  Conn = Wire;
  send = λ c code raw.
      if c.broken then (c, some 1) else (record c { sent = c.sent ++ (code, raw) ∷ [] }, none);
  encode_txs = λ ts. some (length ts ∷ []);
  encode_hashes = some;
  encode_events = λ es. some (length es ∷ []);
  encode_handshake = λ x. some (x.protocol_version ∷ x.network_id ∷ x.genesis ∷ []);
  encode_progress = λ x. some (x.epoch ∷ x.last_block_idx ∷ []);
  encode_raws = λ rs. some (length rs ∷ []);
  Response = ℕ;
  encode_response = λ r. some (r ∷ []);
  Request = ℕ;
  encode_request = λ r. some (r ∷ []);
  encode_text = λ t. t;
  Lru = List ℕ;
  lru_contains = λ l h. member h l;
  lru_add = λ l h. insert h l;
  to_epoch = λ n. n % 2 ^ 32;
  Body = SampleBody;
  decode_progress = λ b. elim b [ progress x ↦ some x | _ ↦ none ];
  decode_handshake = λ b. elim b [ handshake x ↦ some x | _ ↦ none ];
  decode_txs = λ b. elim b [ txs x ↦ some x | _ ↦ none ];
  decode_hashes = λ b. elim b [ hashes x ↦ some x | _ ↦ none ];
  decode_peer_infos = λ b. elim b [ infos x ↦ some x | _ ↦ none ];
  decode_text = λ b. elim b [ text x ↦ some x | _ ↦ none ];
  max_msg_size = 10 * 1024 * 1024;
  Node = ℕ;
  node_id = λ n. n;
  parse_node = λ t. elim t [ [] ↦ none | c ∷ r ↦ some c ];
  node_text = λ n. n ∷ [];
}

unfoldable pub env-SemaphoreLaws : SemaphoreLaws env
env-SemaphoreLaws = record {
  held = λ s. s.used;
  held-try_acquire = λ s t m h. ground arith;
  held-release = λ s m h k. omega arith;
}

fits_new :
    (limit m : Metric)
    → m.num ≤ limit.num
    → m.size ≤ limit.size
    → fits (record { used = record { num = 0; size = 0 }; limit = limit }) m ≡ true
fits_new limit m few small = ground arith

abbrev pub makers : Makers env
makers = record {
  new_semaphore = λ limit. record { used = record { num = 0; size = 0 }; limit = limit };
  new_lru = λ weight items. some [];
}

pub makers-MakersLaws : MakersLaws env env-SemaphoreLaws makers
unfolding env-SemaphoreLaws
makers-MakersLaws = record {
  held-new_semaphore = λ limit. (refl, refl);
  grants = λ limit m few small.
      (grown (makers.new_semaphore limit) m, rw (fits_new limit m few small) refl);
}

fits_granted :
    (s : Counting) (m : Metric)
    → s.used.num + m.num ≤ s.limit.num
    → s.used.size + m.size ≤ s.limit.size
    → fits s m ≡ true
fits_granted s m few small = ground arith

pub makers-LimitLaws : LimitLaws env env-SemaphoreLaws makers
unfolding env-SemaphoreLaws
makers-LimitLaws = record {
  limit = λ s. s.limit;
  limit-new_semaphore = λ m. refl;
  limit-try_acquire = λ s t m h. ground (arith, h);
  limit-release = λ s m. refl;
  within = λ s t m h. ground (arith, h);
  granted = λ s m few small. (grown s m, rw (fits_granted s m few small) refl);
}

pub limit-makers : (s : Counting) → makers-LimitLaws.limit s ≡ s.limit
unfolding makers-LimitLaws
limit-makers s = refl

member-insert : (c : List ℕ) (h : ℕ) → member h (insert h c) ≡ true
member-insert c h = elim (Bool-cases (member h c)) [
  | inl old ↦ rw old old
  | inr new ↦ rw new (ground arith)
]

pub env-LruLaws : LruLaws env
env-LruLaws = record { contains-add = member-insert; add-new = λ c h k e. ground arith }
