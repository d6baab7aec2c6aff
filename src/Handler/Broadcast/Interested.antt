-- ===== src/Handler/Broadcast/Interested.antt =====
-- The peers that are interested in an event, counted by their ids.
use sonicpeer.Base.{
  ℕ, ◌≤◌, ◌≡◌, refl, ap, subst, ◌∙◌, inl, inr, Bool, true, List, [], ◌∷◌, Option, none, some, arith,
  if◌then◌else◌, ◌==◌, length, lookup, count, keep, All, All-map, Bool-cases,
}
use sonicpeer.Env.{Env}
use sonicpeer.Peer.{Peer, interested_in}
use sonicpeer.PeerSet.{PeerSet, peer, peers_without_event}
use sonicpeer.PeerSet.Keyed.{IsKeyed, values}
use sonicpeer.PeerSet.Loops.{loops-keep, list-values}
use sonicpeer.Handler.Broadcast.Divided.{ids}
use sonicpeer.Handler.Broadcast.Queued.{Valid}

module _ {e : Env} where
  -- How often an id stands among the registered peers that pass a test.
  abbrev pub once_if : (Peer e → Bool) → Option (Peer e) → ℕ
  once_if test none = 0
  once_if test (some p) = if test p then 1 else 0

  pub count-keep :
      (test : Peer e → Bool) (m : List (ℕ × Peer e)) (j : ℕ)
      → IsKeyed m
      → count j (ids (keep test (values m))) ≡ once_if test (lookup j m)
  count-keep test [] j keyed = refl
  count-keep test ((k, p) ∷ m) j (own, new, keyed) =
      let rest = count-keep test m j keyed in
      elim (Bool-cases (k == j)) [
        | inl same ↦
            let gone : lookup j m ≡ none = ground (arith, new) in
            rw same (ground (arith, rw gone at rest))
        | inr other ↦ rw other (ground (arith, rest))
      ]

  pub count-wants :
      (test : Peer e → Bool) (ps : PeerSet e) (j : ℕ)
      → IsKeyed ps.peers
      → count j (ids (keep test (values ps.peers))) ≡ once_if test (peer j ps)
  unfolding peer
  count-wants test ps j keyed = count-keep test ps.peers j keyed

  pub keep-All :
      (P : Peer e → Type 0) (test : Peer e → Bool) (m : List (ℕ × Peer e))
      → All (λ x. P x.1) m
      → All P (keep test (values m))
  keep-All P test [] all = tt
  keep-All P test ((k, p) ∷ m) all = elim (Bool-cases (test p)) [
    | inl yes' ↦ rw yes' (all.0, keep-All P test m all.1)
    | inr no' ↦ rw no' (keep-All P test m all.1)
  ]

  pub registered_self :
      (m : List (ℕ × Peer e))
      → IsKeyed m
      → All (λ x. Valid x.1) m
      → All (λ x. Valid x.1 × (lookup x.1.id m ≡ some x.1)) m
  registered_self [] keyed valid = tt
  registered_self ((k, p) ∷ m) (own, new, keyed) valid = (
    (valid.0, ground (arith, own)),
    All-map m
        (λ x r. elim (Bool-cases (k == x.1.id)) [
          | inl same ↦
              let key : x.1.id ≡ k = ground arith in
              absurd (ground (arith, r.1, new, subst (λ i. lookup i m ≡ some x.1) key r.1))
          | inr other ↦ (r.0, rw other r.1)
        ])
        (registered_self m keyed valid.1),
  )

  pub registered-All :
      (ps : PeerSet e)
      → IsKeyed ps.peers
      → All (λ x. Valid x.1) ps.peers
      → All (λ x. Valid x.1 × (peer x.1.id ps ≡ some x.1)) ps.peers
  unfolding peer
  registered-All ps keyed valid = registered_self ps.peers keyed valid

  pub present : (l : List (Peer e)) → All (λ p. 1 ≤ count p.id (ids l)) l
  present [] = tt
  present (p ∷ l) = (ground arith, All-map l (λ r c. ground (arith, c)) (present l))

  pub once_if-le : (test : Peer e → Bool) (found : Option (Peer e)) → once_if test found ≤ 1
  once_if-le test none = omega arith
  once_if-le test (some p) = ground arith

  pub once_if-some :
      (test : Peer e → Bool) (found : Option (Peer e)) (p : Peer e)
      → found ≡ some p
      → once_if test found ≡ 1
      → test p ≡ true
  once_if-some test found p here one = ground (arith, rw here at one)

  abbrev pub wants : e.Event → Peer e → Bool
  wants event p = interested_in p (e.event_id event)

  pub interested :
      (event : e.Event) (ps : PeerSet e)
      → peers_without_event (e.event_id event) ps ≡ keep (wants event) (values ps.peers)
  interested event ps =
      (loops-keep ps (e.event_id event)).0 ∙ ap (keep (wants event)) (list-values ps)

  pub count-interested :
      (event : e.Event) (ps : PeerSet e) (j : ℕ)
      → IsKeyed ps.peers
      → count j (ids (peers_without_event (e.event_id event) ps))
        ≡ once_if (wants event) (peer j ps)
  count-interested event ps j keyed =
      ap (λ l. count j (ids l)) (interested event ps) ∙ count-wants (wants event) ps j keyed

  pub length-zero : (l : List (Peer e)) → length l ≡ 0 → l ≡ []
  length-zero [] h = refl
  length-zero (p ∷ l) h = absurd (omega (arith, h))
