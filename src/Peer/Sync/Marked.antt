-- ===== src/Peer/Sync/Marked.antt =====
-- What the sends that wait for the connection mark as known to the peer: the hashes of events.
use sonicpeer.Base.{ℕ, ◌≡◌, refl, ◌∙◌, List, [], ◌∷◌, some}
use sonicpeer.Env.{Env}
use sonicpeer.Known.Fifo.{IsValid, queue, add-enqueue}
use sonicpeer.Known.Recent.{enqueue_all}
use sonicpeer.Peer.{Peer, mark_event, mark_events}

module _ {e : Env} where
  pub mark_events-enqueue :
      (hs : List ℕ) (p : Peer e)
      → IsValid p.known_events
      → (k : _) × (mark_events hs p ≡ some (record p { known_events = k }))
        × IsValid k
        × (queue k ≡ enqueue_all p.known_events.max hs (queue p.known_events))
  unfolding mark_events mark_event
  mark_events-enqueue [] p v = (p.known_events, refl, v, refl)
  mark_events-enqueue (h ∷ hs) p v =
      let (k, one, w, cap, front) = add-enqueue v h in
      let (k', rest, u, back) = mark_events-enqueue hs (record p { known_events = k }) w in
      (k', rw one rest, u, back ∙ (λ i. enqueue_all (cap i) hs (front i)))
