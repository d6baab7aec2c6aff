-- ===== src/Handler/Broadcast/Event.antt =====
-- BroadcastEvent as a whole.
use sonicpeer.Base.{
  ℕ, ◌+◌, ◌≤◌, ◌≡◌, refl, sym, ap, ◌∙◌, ◌⊎◌, inl, inr, Bool, true, not, List, [], ◌∷◌, Option, some,
  arith, if◌then◌else◌, ◌==◌, length, count, keep, take, All, Bool-cases,
}
use sonicpeer.Base.Int64
use sonicpeer.Env.{Env}
use sonicpeer.Known.Fifo.{IsValid}
use sonicpeer.Peer.{Peer, interested_in}
use sonicpeer.Peer.Async.{async_send_events, async_send_event_ids}
use sonicpeer.PeerSet.{PeerSet, peer, peers_without_event}
use sonicpeer.PeerSet.Keyed.{IsKeyed}
use sonicpeer.Handler.{Handler}
use sonicpeer.Handler.Aggressiveness.{Tradeoff, decide_broadcast_aggressiveness}
use sonicpeer.Handler.Broadcast.{share, send_to, broadcast_event}
use sonicpeer.Handler.Broadcast.Divided.{take-nil, ids, Shares, share-Shares}
use sonicpeer.Handler.Broadcast.Sent.{Reached, send_to-Reached}
use sonicpeer.Handler.Broadcast.Queued.{
  Valid, async_send_events-Returns, async_send_event_ids-Returns,
}
use sonicpeer.Handler.Broadcast.Interested.{
  once_if, keep-All, registered-All, present, once_if-le, once_if-some, wants, interested,
  count-interested, length-zero,
}

module _ {e : Env} where
  -- What has become of the peer under an id. If there is none, or it is not interested in the event, it
  -- is as it was. Otherwise it is what queueing the event has made of it, if it is one of those chosen
  -- for that, and what queueing the hash of the event has made of it, if it is not.
  abbrev pub Outcome :
      (ℕ → Bool) → e.Event → List (Peer e) → Option (Peer e) → Option (Peer e) → ℕ → Type 0
  Outcome picks event full found found' j =
      ((once_if (λ p. interested_in p (e.event_id event)) found ≡ 0) × (found' ≡ found))
      ⊎ ((p : Peer e) × (q : Peer e) × (sent : Bool) × (found ≡ some p)
          × (interested_in p (e.event_id event) ≡ true)
          × (found' ≡ some q)
          × (((count j (ids full) ≡ 1)
                × (async_send_events (picks p.id) (event ∷ []) p ≡ some (q, sent)))
              ⊎ ((count j (ids full) ≡ 0)
                  × (async_send_event_ids (picks p.id) (e.event_id event ∷ []) p
                      ≡ some (q, sent)))))

  -- The handler after BroadcastEvent. `full` are the peers that get the event: the first of the
  -- interested ones that are not useless, as many as the decision allows.
  pub record Broadcast (picks : ℕ → Bool) (cfg : Tradeoff) (event : e.Event) (passed : ℕ)
      (h h' : Handler e) : Type 0 where
    pub full : List (Peer e)
    pub chosen :
        full
        ≡ take
            (decide_broadcast_aggressiveness cfg
              (e.event_size event)
              (if Int64.is_negative passed then 0 else passed)
              (length (peers_without_event (e.event_id event) h.peers)))
            (keep (λ p. not p.useless) (peers_without_event (e.event_id event) h.peers))
    pub others : h' ≡ record h { peers = h'.peers }
    pub outcome : (j : ℕ) → Outcome picks event full (peer j h.peers) (peer j h'.peers) j

  abbrev sends_event : (ℕ → Bool) → e.Event → Peer e → Option (Peer e × Bool)
  sends_event picks event p = async_send_events (picks p.id) (event ∷ []) p

  abbrev sends_hash : (ℕ → Bool) → e.Event → Peer e → Option (Peer e × Bool)
  sends_hash picks event p = async_send_event_ids (picks p.id) (e.event_id event ∷ []) p

  -- The two loops after one another.
  Outcome-both :
      (picks : ℕ → Bool) (event : e.Event) (ps ps1 ps2 : PeerSet e) (full hashes : List (Peer e))
      (j : ℕ)
      → count j (ids full) + count j (ids hashes) ≡ once_if (wants event) (peer j ps)
      → Reached (sends_event picks event) full ps ps1 j
      → Reached (sends_hash picks event) hashes ps1 ps2 j
      → Outcome picks event full (peer j ps) (peer j ps2) j
  Outcome-both picks event ps ps1 ps2 full hashes j counts (inl (none_on, as1))
        (inl (none_on', as2)) =
      inl (omega (arith, counts), as2 ∙ as1)
  Outcome-both picks event ps ps1 ps2 full hashes j counts (inl (none_on, as1))
        (inr (one, p, found, q, now, sent, did)) =
      let here = sym as1 ∙ found in
      inr (
        p,
        q,
        sent,
        here,
        once_if-some (wants event) (peer j ps) p here (omega (arith, counts)),
        now,
        inr (none_on, did),
      )
  Outcome-both picks event ps ps1 ps2 full hashes j counts (inr (one, p, found, q, now, sent, did))
        (inl (none_on, as2)) =
      inr (
        p,
        q,
        sent,
        found,
        once_if-some (wants event) (peer j ps) p found (omega (arith, counts)),
        as2 ∙ now,
        inl (one, did),
      )
  Outcome-both picks event ps ps1 ps2 full hashes j counts (inr x) (inr y) =
      absurd (omega (arith, once_if-le (wants event) (peer j ps), counts, x.0, y.0))

  -- The peers that get the hash are still as they were after the first loop.
  untouched :
      (act : Peer e → Option (Peer e × Bool)) (ps ps1 : PeerSet e) (full hashes l : List (Peer e))
      → ((j : ℕ) → count j (ids full) + count j (ids hashes) ≤ 1)
      → ((j : ℕ) → Reached act full ps ps1 j)
      → All (λ p. 1 ≤ count p.id (ids hashes)) l
      → All (λ p. Valid p × (peer p.id ps ≡ some p)) l
      → All (λ p. Valid p × (peer p.id ps1 ≡ some p)) l
  untouched act ps ps1 full hashes [] once reached there regs = tt
  untouched act ps ps1 full hashes (p ∷ l) once reached there regs = (
    (regs.0.0, as_was (reached p.id) ∙ regs.0.1),
    untouched act ps ps1 full hashes l once reached there.1 regs.1,
  )
    where
      as_was : Reached act full ps ps1 p.id → peer p.id ps1 ≡ peer p.id ps
      as_was (inl (none_on, as1)) = as1
      as_was (inr x) = absurd (omega (arith, once p.id, there.0, x.0))

  send_both :
      (picks : ℕ → Bool) (event : e.Event) (ps : PeerSet e) (limit : ℕ)
      (r : List (Peer e) × List (Peer e))
      → IsKeyed ps.peers
      → All (λ x. IsValid x.1.known_events) ps.peers
      → Shares limit (peers_without_event (e.event_id event) ps) [] [] r
      → (ps1 : PeerSet e) × (ps2 : PeerSet e) × (send_to (sends_event picks event) r.0 ps
          ≡ some ps1)
        × (send_to (sends_hash picks event) r.1 ps1 ≡ some ps2)
        × ((j : ℕ) → Outcome picks event r.0 (peer j ps) (peer j ps2) j)
  send_both picks event ps limit r keyed valid shares =
      let Registered : Peer e → Type 0 = λ p. Valid p × (peer p.id ps ≡ some p) in
      let counts : (j : ℕ)
          → count j (ids r.0) + count j (ids r.1) ≡ once_if (wants event) (peer j ps) =
        λ j. omega (arith, shares.counted j, count-interested event ps j keyed) in
      let once : (j : ℕ) → count j (ids r.0) + count j (ids r.1) ≤ 1 =
        λ j. omega (arith, counts j, once_if-le (wants event) (peer j ps)) in
      let regs : All Registered (peers_without_event (e.event_id event) ps) =
        rw (interested event ps)
          (keep-All Registered (wants event) ps.peers (registered-All ps keyed valid)) in
      let (regs1, regs2) = shares.kept Registered tt tt regs in
      let (ps1, run1, reached1) =
        send_to-Reached Valid (sends_event picks event)
          (λ p. async_send_events-Returns (picks p.id) (event ∷ []) p) r.0 ps
          (λ j. omega (arith, once j)) regs1 in
      let (ps2, run2, reached2) =
        send_to-Reached Valid (sends_hash picks event)
          (λ p. async_send_event_ids-Returns (picks p.id) (e.event_id event ∷ []) p) r.1 ps1
          (λ j. omega (arith, once j))
          (untouched (sends_event picks event) ps ps1 r.0 r.1 r.1 once reached1 (present r.1)
            regs2) in
      (
        ps1,
        ps2,
        run1,
        run2,
        λ j. Outcome-both picks event ps ps1 ps2 r.0 r.1 j (counts j) (reached1 j) (reached2 j),
      )

  -- BroadcastEvent, for registered peers under distinct ids with valid caches of events, always returns
  -- the number of the interested peers. It writes to the peers alone: each peer that is not interested
  -- is as it was, the first interested ones that are not useless are sent the event, as many as
  -- decideBroadcastAggressiveness allows, and every other interested one is sent the hash of the event,
  -- each once.
  pub broadcast_event-Broadcast :
      (picks : ℕ → Bool) (cfg : Tradeoff) (event : e.Event) (passed : ℕ) (h : Handler e)
      → IsKeyed h.peers.peers
      → All (λ x. IsValid x.1.known_events) h.peers.peers
      → (h' : Handler e) × (broadcast_event picks cfg event passed h
          ≡ some (h', length (peers_without_event (e.event_id event) h.peers)))
        × Broadcast picks cfg event passed h h'
  unfolding broadcast_event
  broadcast_event-Broadcast picks cfg event passed h keyed valid =
      let id = e.event_id event in
      let peers = peers_without_event id h.peers in
      let limit =
        decide_broadcast_aggressiveness cfg (e.event_size event)
          (if Int64.is_negative passed then 0 else passed) (length peers) in
      elim (Bool-cases (length peers == 0)) [
        | inl none_left ↦
            let zero_left : length peers ≡ 0 = ground arith in
            let nil = length-zero peers zero_left in
            let runs : broadcast_event picks cfg event passed h ≡ some (h, 0) =
              rw (none_left, broadcast_event) refl in
            (
              h,
              runs ∙ ap (λ n. some (h, n)) (sym zero_left),
              record {
                full = [];
                chosen =
                    sym (ap (λ l. take limit (keep (λ p. not p.useless) l)) nil ∙ take-nil limit);
                others = refl;
                outcome = λ j. inl (
                  sym (count-interested event h.peers j keyed) ∙ ap (λ l. count j (ids l)) nil,
                  refl,
                );
              },
            )
        | inr any ↦
            let shares = share-Shares limit peers [] [] in
            let (ps1, ps2, run1, run2, outcome) =
              send_both picks event h.peers limit (share limit peers [] []) keyed valid shares in
            (
              record h { peers = ps2 },
              rw (any, broadcast_event) (rw run1 (rw run2 refl)),
              record {
                full = (share limit peers [] []).0;
                chosen =
                    shares.chosen
                    ∙ ap (λ n. take n (keep (λ p. not p.useless) peers)) (omega arith);
                others = refl;
                outcome = outcome;
              },
            )
      ]
