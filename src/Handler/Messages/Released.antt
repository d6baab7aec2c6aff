-- ===== src/Handler/Messages/Released.antt =====
-- The semaphore of the handler after a message.
use sonicpeer.Base.{
  ℕ, ◌≡◌, refl, inl, inr, Bool, true, false, List, [], Option, none, some, arith, if◌then◌else◌,
  ltb, ◌==◌, member, Bool-cases, Option-cases,
}
use sonicpeer.Env.{Read, failed, received, Env, SemaphoreLaws}
use sonicpeer.Known.Fifo.{IsValid}
use sonicpeer.Backend.{get_epoch}
use sonicpeer.Protocol.{Error, PeerProgress}
use sonicpeer.Peer.{Peer, set_progress}
use sonicpeer.Peer.Request.{request_transactions, request_lem, send_each}
use sonicpeer.Protocol.Code
use sonicpeer.Handler.{Handler}
use sonicpeer.Handler.Gossip.{handle_tx_hashes, handle_txs}
use sonicpeer.Handler.Gossip.Announced.{unseen, seen, announce-Announces}
use sonicpeer.Handler.Gossip.Relayed.{relay-Relays, cache_after, taken, hooked_with}
use sonicpeer.Handler.Limits.{check_len_limits}
use sonicpeer.Handler.Staleness.{
  Report, check_peer_staleness, check_peer_staleness-known_txs, check_peer_staleness-id,
}
use sonicpeer.Handler.Messages.{
  Outcome, returns, decoded, within_limits, on_progress, on_txs, on_tx_hashes, skipped,
  answer_end_point, on_peer_infos, on_get_end_point, on_end_point_update, dispatch, message_weight,
  handle_msg,
}

module _ {e : Env} where
  -- A call that returned, with the semaphore and the registered peers that it was given, and the same
  -- peer, with valid marks.
  pub record Handled (h : Handler e) (p : Peer e) (out : Outcome e) : Type 0 where
    pub handler : Handler e
    pub peer : Peer e
    pub hooked : List e.Tx
    pub error : Option Error
    pub runs : out ≡ some (handler, peer, hooked, error)
    pub kept : handler.msg_semaphore ≡ h.msg_semaphore
    pub same_peers : handler.peers ≡ h.peers
    pub same_id : peer.id ≡ p.id
    pub valid : IsValid peer.known_txs

  Handled-if :
      {h : Handler e} {p : Peer e} {x y : Outcome e} (b : Bool)
      → Handled h p x
      → Handled h p y
      → Handled h p (if b then x else y)
  Handled-if true hx hy = hx
  Handled-if false hx hy = hy

  module _ (h : Handler e) (p : Peer e) (v : IsValid p.known_txs) where
    returns-Handled :
        (err : Option Error) (h' : Handler e) (p' : Peer e)
        → h'.msg_semaphore ≡ h.msg_semaphore
        → h'.peers ≡ h.peers
        → p'.id ≡ p.id
        → IsValid p'.known_txs
        → Handled h p (returns err h' p')
    returns-Handled err h' p' s ps i w = record {
      handler = h';
      peer = p';
      hooked = [];
      error = err;
      runs = refl;
      kept = s;
      same_peers = ps;
      same_id = i;
      valid = w;
    }

    decoded-Handled :
        {A : Type 0} (o : Option A) {act : A → Outcome e}
        → ((x : A) → Handled h p (act x))
        → Handled h p (decoded o act h p)
    decoded-Handled none f = returns-Handled (some Error.decode) h p refl refl refl v
    decoded-Handled (some x) f = f x

    within_limits-Handled :
        (size : ℕ) {act : Outcome e} → Handled h p act → Handled h p (within_limits size act h p)
    within_limits-Handled size {act} f = go (check_len_limits size)
      where
        go :
            (o : Option Error) → Handled h p (elim o [ some x ↦ returns (some x) h p | none ↦ act ])
        go none = f
        go (some x) = returns-Handled (some x) h p refl refl refl v

    on_progress-Handled :
        (now later : ℕ) (body : e.Body) → Handled h p (on_progress now later body h p)
    unfolding on_progress set_progress
    on_progress-Handled now later body = decoded-Handled (e.decode_progress body) (λ x.
        let r : Report = record {
          epoch = x.epoch;
          current = get_epoch h.backend;
          now = now;
          later = later;
        } in
        go x (check_peer_staleness h.stale_grace_period r p)
          (check_peer_staleness-id h.stale_grace_period r p)
          (rw (check_peer_staleness-known_txs h.stale_grace_period r p) v))
      where
        go :
            (x : PeerProgress) (c : Peer e × Option Error)
            → c.0.id ≡ p.id
            → IsValid c.0.known_txs
            → Handled h p (elim c.1 [
              | some y ↦ returns (some y) h c.0
              | none ↦ returns none h (set_progress x c.0)
            ])
        go x (p', none) i w = returns-Handled none h (set_progress x p') refl refl i w
        go x (p', some y) i w = returns-Handled (some y) h p' refl refl i w

    on_txs-Handled : (body : e.Body) → Handled h p (on_txs body h p)
    unfolding on_txs handle_txs
    on_txs-Handled body = decoded-Handled (e.decode_txs body) (λ txs. within_limits-Handled _ (
        let r = relay-Relays h txs [] h.tx_hash_cache p v in
        record {
          handler = record h { tx_hash_cache = cache_after h h.tx_hash_cache txs };
          peer = record p { known_txs = r.known };
          hooked = hooked_with h [] (taken h h.tx_hash_cache txs);
          error = none;
          runs = rw r.runs refl;
          kept = refl;
          same_peers = refl;
          same_id = refl;
          valid = r.valid;
        }))

    on_tx_hashes-Handled : (body : e.Body) → Handled h p (on_tx_hashes body h p)
    unfolding on_tx_hashes handle_tx_hashes request_transactions
    on_tx_hashes-Handled body = decoded-Handled (e.decode_hashes body) (λ ids.
        within_limits-Handled _ (
          let r = announce-Announces ids [] h.tx_hash_cache p v in
          let s = request_lem e Code.get_evm_txs (unseen e h.tx_hash_cache ids) in
          record {
            handler = record h { tx_hash_cache = seen e h.tx_hash_cache ids };
            peer = record p {
              known_txs = r.known;
              conn = (send_each e Code.get_evm_txs s.0 p.conn).0;
            };
            hooked = [];
            error = none;
            runs = rw r.runs (rw (s.1 p.conn) refl);
            kept = refl;
            same_peers = refl;
            same_id = refl;
            valid = r.valid;
          }))

    on_peer_infos-Handled : (now : ℕ) (body : e.Body) → Handled h p (on_peer_infos now body h p)
    unfolding on_peer_infos
    on_peer_infos-Handled now body =
        decoded-Handled (e.decode_peer_infos body)
          (λ infos. returns-Handled none _ p refl refl refl v)

    on_get_end_point-Handled : Handled h p (on_get_end_point h p)
    unfolding on_get_end_point answer_end_point
    on_get_end_point-Handled = go h.local_end_point
      where
        go :
            (o : Option e.Node)
            → Handled h p (elim o [ none ↦ returns none h p | some n ↦ answer_end_point n h p ])
        go none = returns-Handled none h p refl refl refl v
        go (some n) = returns-Handled _ h (record p { conn = _ }) refl refl refl v

    on_end_point_update-Handled :
        (now : ℕ) (body : e.Body) → Handled h p (on_end_point_update now body h p)
    unfolding on_end_point_update
    on_end_point_update-Handled now body =
        decoded-Handled (e.decode_text body) (λ text. go (e.parse_node text))
      where
        go :
            (o : Option e.Node)
            → Handled h p (elim o [
              | none ↦ returns none h p
              | some n ↦
                  returns none h
                    (record p { end_point = some (record { enode = n; timestamp = now }) })
            ])
        go none = returns-Handled none h p refl refl refl v
        go (some n) = returns-Handled none h _ refl refl refl v

    pub dispatch-Handled :
        (now later code : ℕ) (body : e.Body) → Handled h p (dispatch now later code body h p)
    unfolding dispatch
    dispatch-Handled now later code body =
        Handled-if (code == Code.handshake)
          (returns-Handled (some Error.extra_status_msg) h p refl refl refl v)
          (Handled-if (code == Code.progress) (on_progress-Handled now later body) (
            Handled-if (code == Code.evm_txs) (on_txs-Handled body) (
              Handled-if (code == Code.new_evm_tx_hashes) (on_tx_hashes-Handled body) (
                Handled-if (member code skipped) (returns-Handled none h p refl refl refl v) (
                  Handled-if (code == Code.peer_infos) (on_peer_infos-Handled now body) (
                    Handled-if (code == Code.get_end_point) on_get_end_point-Handled (
                      Handled-if (code == Code.end_point_update)
                        (on_end_point_update-Handled now body)
                        (returns-Handled (some Error.invalid_msg_code) h p refl refl refl v))))))))

-- The semaphore holds the same.
abbrev pub SameHeld : {e : Env} → SemaphoreLaws e → e.Semaphore → e.Semaphore → Type 0
SameHeld laws s t =
    ((laws.held s).num ≡ (laws.held t).num) × ((laws.held s).size ≡ (laws.held t).size)

module _ {e : Env} (laws : SemaphoreLaws e) where
  -- `handleMsg` returns on every message, valid or not, if the marks of the peer are valid; they still
  -- are afterwards, the semaphore of the handler holds what it held before, and the registered peers
  -- and the id of the peer are the same.
  pub handle_msg-SameHeld :
      (now later : ℕ) (r : Read e) (h : Handler e) (p : Peer e)
      → IsValid p.known_txs
      → (h' : Handler e) × (p' : Peer e) × (hooked : List e.Tx) × (err : Option Error) × (handle_msg
            now later r h p
          ≡ some (h', p', hooked, err))
        × SameHeld laws h'.msg_semaphore h.msg_semaphore
        × IsValid p'.known_txs
        × (h'.peers ≡ h.peers)
        × (p'.id ≡ p.id)
  unfolding handle_msg
  handle_msg-SameHeld now later (failed x) h p v =
      (h, p, [], some (Error.read_failed x), refl, (refl, refl), v, refl, refl)
  handle_msg-SameHeld now later (received code size body) h p v =
      elim (Bool-cases (ltb e.max_msg_size size)) [
        | inl large ↦
            (h, p, [], some Error.msg_too_large, rw large refl, (refl, refl), v, refl, refl)
        | inr fits ↦ elim (Option-cases (e.try_acquire h.msg_semaphore (message_weight size))) [
          | inl refused ↦ (h, p, [], none, rw fits (rw refused refl), (refl, refl), v, refl, refl)
          | inr (s, granted) ↦
              let d = dispatch-Handled (record h { msg_semaphore = s }) p v now later code body in
              let a = laws.held-try_acquire h.msg_semaphore s (message_weight size) granted in
              let b =
                laws.held-release s (message_weight size) (omega (arith, a.0))
                  (omega (arith, a.1)) in
              (
                record d.handler {
                  msg_semaphore = e.release d.handler.msg_semaphore (message_weight size);
                },
                d.peer,
                d.hooked,
                d.error,
                rw fits (rw granted (rw d.runs refl)),
                rw d.kept (omega (arith, a.0, b.0), omega (arith, a.1, b.1)),
                d.valid,
                d.same_peers,
                d.same_id,
              )
        ]
      ]
