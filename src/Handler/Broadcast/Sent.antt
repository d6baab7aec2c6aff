-- ===== src/Handler/Broadcast/Sent.antt =====
-- The loops of BroadcastEvent that send: whom they reach.
use sonicpeer.Base.{
  ℕ, ◌≤◌, ◌≡◌, refl, sym, ◌∙◌, ◌⊎◌, inl, inr, Bool, false, subst, List, [], ◌∷◌, Option, some,
  arith, if◌then◌else◌, ◌==◌, lookup, lookup-store, count, All, Bool-cases,
}
use sonicpeer.Env.{Env}
use sonicpeer.Peer.{Peer}
use sonicpeer.PeerSet.{PeerSet, peer, update}
use sonicpeer.Handler.Broadcast.{send_to}
use sonicpeer.Handler.Broadcast.Divided.{ids}

module _ {e : Env} where
  pub peer-update :
      (q p : Peer e) (ps : PeerSet e) (j : ℕ)
      → peer p.id ps ≡ some p
      → q.id ≡ p.id
      → peer j (update q ps) ≡ (if p.id == j then some q else peer j ps)
  unfolding peer update
  peer-update q p ps j here same =
      let there : lookup q.id ps.peers ≡ some p = rw same here in
      rw (there, update) (lookup-store q.id j q ps.peers ∙ rw same refl)

  -- A write leaves the other peers of a list where they are.
  still :
      (P : Peer e → Type 0) (q p : Peer e) (ps : PeerSet e) (l : List (Peer e))
      → peer p.id ps ≡ some p
      → q.id ≡ p.id
      → count p.id (ids l) ≡ 0
      → All (λ r. P r × (peer r.id ps ≡ some r)) l
      → All (λ r. P r × (peer r.id (update q ps) ≡ some r)) l
  still P q p ps [] here same new regs = tt
  still P q p ps (r ∷ l) here same new regs =
      let other : (p.id == r.id) ≡ false = ground (arith, new) in
      (
        (regs.0.0, peer-update q p ps r.id here same ∙ rw other regs.0.1),
        still P q p ps l here same (omega (arith, new)) regs.1,
      )

  -- What has become of the peer under an id: it is not on the list and is as it was, or it is on it,
  -- once, and it is what the call has made of it.
  abbrev pub Reached :
      (Peer e → Option (Peer e × Bool)) → List (Peer e) → PeerSet e → PeerSet e → ℕ → Type 0
  Reached act l ps ps' j =
      ((count j (ids l) ≡ 0) × (peer j ps' ≡ peer j ps))
      ⊎ ((count j (ids l) ≡ 1)
          × (p : Peer e) × (peer j ps ≡ some p)
          × (q : Peer e) × (peer j ps' ≡ some q)
          × (sent : Bool) × (act p ≡ some (q, sent)))

  Reached-cons :
      (act : Peer e → Option (Peer e × Bool)) (p q : Peer e) (l : List (Peer e))
      (ps ps' : PeerSet e) (j : ℕ) (sent : Bool)
      → peer p.id ps ≡ some p
      → q.id ≡ p.id
      → count j (ids (p ∷ l)) ≤ 1
      → act p ≡ some (q, sent)
      → Reached act l (update q ps) ps' j
      → Reached act (p ∷ l) ps ps' j
  Reached-cons act p q l ps ps' j sent here same once does (inl (none_left, as_was)) =
      let written = as_was ∙ peer-update q p ps j here same in
      elim (Bool-cases (p.id == j)) [
        | inl own ↦
            let key : p.id ≡ j = ground arith in
            inr (
              ground arith,
              p,
              subst (λ i. peer i ps ≡ some p) key here,
              q,
              written ∙ rw own refl,
              sent,
              does,
            )
        | inr other ↦ inl (ground arith, written ∙ rw other refl)
      ]
  Reached-cons act p q l ps ps' j sent here same once does
        (inr (one, p1, found, q1, now, sent1, did)) =
      let other : (p.id == j) ≡ false = ground arith in
      let unwritten : peer j (update q ps) ≡ peer j ps =
        peer-update q p ps j here same ∙ rw other refl in
      inr (ground arith, p1, sym unwritten ∙ found, q1, now, sent1, did)

  pub send_to-Reached :
      (P : Peer e → Type 0) (act : Peer e → Option (Peer e × Bool))
      → ((p : Peer e)
          → P p
          → (q : Peer e) × (q.id ≡ p.id) × (sent : Bool) × (act p ≡ some (q, sent)))
      → (l : List (Peer e)) (ps : PeerSet e) → ((j : ℕ) → count j (ids l) ≤ 1)
      → All (λ p. P p × (peer p.id ps ≡ some p)) l
      → (ps' : PeerSet e) × (send_to act l ps ≡ some ps') × ((j : ℕ) → Reached act l ps ps' j)
  unfolding send_to
  send_to-Reached P act total [] ps once regs = (ps, refl, λ j. inl (refl, refl))
  send_to-Reached P act total (p ∷ l) ps once regs =
      let (q, same, sent, does) = total p regs.0.0 in
      let once' : (j : ℕ) → count j (ids l) ≤ 1 = λ j. ground (arith, once j) in
      let new : count p.id (ids l) ≡ 0 = ground (arith, once p.id) in
      let (ps', runs, reached) =
        send_to-Reached P act total l (update q ps) once'
          (still P q p ps l regs.0.1 same new regs.1) in
      (
        ps',
        rw does runs,
        λ j. Reached-cons act p q l ps ps' j sent regs.0.1 same (once j) does (reached j),
      )
