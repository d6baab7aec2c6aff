-- ===== src/Handler/Broadcast/Queued.antt =====
-- The calls that queue events for a peer with valid caches return.
use sonicpeer.Base.{
  ℕ, ◌≡◌, refl, sym, subst, inl, inr, Bool, true, false, List, map, Option, some, arith,
  Option-cases,
}
use sonicpeer.Env.{Env}
use sonicpeer.Protocol.Code
use sonicpeer.Known.Fifo.{IsValid}
use sonicpeer.Peer.{Peer, mark_events}
use sonicpeer.Peer.Outbox.{async_send_encoded_item}
use sonicpeer.Peer.Async.{mark_if, async_send_events, async_send_event_ids}
use sonicpeer.Peer.Sync.Marked.{mark_events-enqueue}

module _ {e : Env} where
  abbrev pub Valid : Peer e → Type 0
  Valid p = IsValid p.known_events

  -- A call on a peer returns, and the peer keeps its id.
  abbrev pub Returns : Option (Peer e × Bool) → Peer e → Type 0
  Returns r p = (q : Peer e) × (q.id ≡ p.id) × (sent : Bool) × (r ≡ some (q, sent))

  async_send_encoded_item-keeps :
      (picks : Bool) (raw : List ℕ) (code : ℕ) (p : Peer e)
      → ((async_send_encoded_item picks raw code p).0.id ≡ p.id)
        × ((async_send_encoded_item picks raw code p).0.known_events ≡ p.known_events)
  unfolding async_send_encoded_item
  async_send_encoded_item-keeps picks raw code p = ground arith

  mark_if-Returns :
      (hs : List ℕ) (x : Peer e × Bool) (p : Peer e)
      → x.0.id ≡ p.id
      → x.0.known_events ≡ p.known_events
      → Valid p
      → Returns (mark_if mark_events hs x) p
  mark_if-Returns hs (q, true) p same cache v =
      let (k, runs, valid, front) = mark_events-enqueue hs q (subst IsValid (sym cache) v) in
      (record q { known_events = k }, same, true, rw runs refl)
  mark_if-Returns hs (q, false) p same cache v = (q, same, false, refl)

  pub async_send_events-Returns :
      (picks : Bool) (events : List e.Event) (p : Peer e)
      → Valid p
      → Returns (async_send_events picks events p) p
  unfolding async_send_events
  async_send_events-Returns picks events p v = elim (Option-cases (e.encode_events events)) [
    | inl fails ↦ (p, refl, false, rw (fails, async_send_events) refl)
    | inr (raw, ok) ↦
        let kept = async_send_encoded_item-keeps picks raw Code.events p in
        let (q, same, sent, does) =
          mark_if-Returns (map e.event_id events) (async_send_encoded_item picks raw Code.events p)
            p kept.0 kept.1 v in
        (q, same, sent, rw (ok, async_send_events) does)
  ]

  pub async_send_event_ids-Returns :
      (picks : Bool) (hs : List ℕ) (p : Peer e)
      → Valid p
      → Returns (async_send_event_ids picks hs p) p
  unfolding async_send_event_ids
  async_send_event_ids-Returns picks hs p v = elim (Option-cases (e.encode_hashes hs)) [
    | inl fails ↦ (p, refl, false, rw (fails, async_send_event_ids) refl)
    | inr (raw, ok) ↦
        let kept = async_send_encoded_item-keeps picks raw Code.new_event_ids p in
        let (q, same, sent, does) =
          mark_if-Returns hs (async_send_encoded_item picks raw Code.new_event_ids p) p kept.0
            kept.1 v in
        (q, same, sent, rw (ok, async_send_event_ids) does)
  ]
