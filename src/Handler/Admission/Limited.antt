-- ===== src/Handler/Admission/Limited.antt =====
-- The limits on the registered peers, when sessions register one after the other.
use sonicpeer.Base.{
  ℕ, suc, ◌+◌, ◌/◌, ◌≤◌, ◌<◌, ◌≡◌, refl, ap, sym, ◌∙◌, inl, inr, Bool, false, not, List, [], ◌∷◌,
  Option, none, some, arith, if◌then◌else◌, ◌==◌, ◌&&◌, length, lookup, store, lookup-store, keep,
  Bool-cases, Option-cases,
}
use sonicpeer.Env.{Env}
use sonicpeer.Protocol.{Error}
use sonicpeer.Peer.{Peer, set_useless}
use sonicpeer.PeerSet.{PeerSet, peer, register_peer, useless_num, len}
use sonicpeer.PeerSet.Keyed.{values}
use sonicpeer.PeerSet.Loops.{loops-keep, list-values}
use sonicpeer.Handler.{Handler}
use sonicpeer.Handler.Admission.{
  Entry, enters, refused, too_useless, too_many, judged, registers, admit,
}

module _ {e : Env} where
  abbrev pub tally : (Peer e → Bool) → PeerSet e → ℕ
  tally test ps = length (keep test (values ps.peers))

  -- At most `max_peers` peers are not trusted, and half as many are useless.
  pub record Limited (h : Handler e) : Type 0 where
    pub strangers : tally (λ p. not p.trusted) h.peers ≤ h.max_peers
    pub useless : tally (λ p. p.useless) h.peers ≤ h.max_peers / 2

  keep-store :
      (test : Peer e → Bool) (p : Peer e) (m : List (ℕ × Peer e))
      → lookup p.id m ≡ none
      → length (keep test (values (store p.id p m)))
        ≡ length (keep test (values m)) + (if test p then 1 else 0)
  keep-store test p [] h = ground arith
  keep-store test p ((i, q) ∷ m) h = ground (arith, keep-store test p m)

  length-store :
      (p : Peer e) (m : List (ℕ × Peer e))
      → lookup p.id m ≡ none
      → length (store p.id p m) ≡ suc (length m)
  length-store p [] h = ground arith
  length-store p ((i, q) ∷ m) h = ground (arith, length-store p m)

  keep-le-length : (test : Peer e → Bool) (l : List (Peer e)) → length (keep test l) ≤ length l
  keep-le-length test [] = omega arith
  keep-le-length test (p ∷ l) = ground (arith, keep-le-length test l)

  useless_num-tally : (ps : PeerSet e) → useless_num ps ≡ tally (λ p. p.useless) ps
  useless_num-tally ps =
      (loops-keep ps 0).2 ∙ ap (λ l. length (keep (λ p. p.useless) l)) (list-values ps)

  len-tally : (ps : PeerSet e) → tally (λ p. not p.trusted) ps ≤ len ps
  len-tally ps = omega (
    arith,
    (loops-keep ps 0).3,
    ap length (list-values ps),
    keep-le-length (λ p. not p.trusted) (values ps.peers),
  )

  -- What is known of a peer that has been admitted.
  pub record Admitted (is_banned : Bool) (shaken : Option Error) (h h' : Handler e) (p p' : Peer e)
      : Type 0 where
    pub agreed : shaken ≡ none
    pub marked : p' ≡ judged is_banned p
    pub few_useless : too_useless is_banned h p ≡ false
    pub few_peers : too_many h p ≡ false
    pub opened : h.peers.closed ≡ false
    pub free : lookup p'.id h.peers.peers ≡ none
    pub stored : h' ≡ record h { peers = record h.peers { peers = store p'.id p' h.peers.peers } }

  abbrev peer_of : Entry e → Peer e
  peer_of (enters h p) = p
  peer_of (refused p bans x) = p

  abbrev handler_of : Handler e → Entry e → Handler e
  handler_of h (enters h' p) = h'
  handler_of h (refused p bans x) = h

  registers-stored :
      (h h' : Handler e) (p p' : Peer e)
      → registers h p ≡ enters h' p'
      → (p' ≡ p)
        × (h.peers.closed ≡ false)
        × (lookup p.id h.peers.peers ≡ none)
        × (h' ≡ record h { peers = record h.peers { peers = store p.id p h.peers.peers } })
  unfolding registers register_peer
  registers-stored h h' p p' s = elim (Bool-cases h.peers.closed) [
    | inl shut ↦ absurd (ground (arith, s, shut))
    | inr open' ↦ elim (Option-cases (lookup p.id h.peers.peers)) [
      | inr (q, taken) ↦ absurd (ground (arith, s, open', taken))
      | inl free ↦
          let entered : enters
                (record h { peers = record h.peers { peers = store p.id p h.peers.peers } }) p
              ≡ enters h' p' =
            ground (arith, s, open', free) in
          (ap peer_of (sym entered), open', free, ap (handler_of h) (sym entered))
    ]
  ]

  pub admit-Admitted :
      (is_banned : Bool) (shaken : Option Error) (h : Handler e) (p : Peer e) {h' : Handler e}
      {p' : Peer e}
      → admit is_banned shaken h p ≡ enters h' p'
      → Admitted is_banned shaken h h' p p'
  unfolding admit
  admit-Admitted is_banned (some x) h p s = elim (Bool-cases (too_useless is_banned h p)) [
    | inl useless ↦ absurd (ground (arith, s, useless))
    | inr few ↦ absurd (ground (arith, s, few))
  ]
  admit-Admitted is_banned none h p {h'} {p'} s = elim (Bool-cases (too_useless is_banned h p)) [
    | inl useless ↦ absurd (ground (arith, s, useless))
    | inr few ↦ elim (Bool-cases (too_many h p)) [
      | inl many ↦ absurd (ground (arith, s, few, many))
      | inr room ↦
          let (same, open', free, stored) =
            registers-stored h h' (judged is_banned p) p' (rw (few, room) at s) in
          record {
            agreed = refl;
            marked = same;
            few_useless = few;
            few_peers = room;
            opened = open';
            free = rw same free;
            stored = rw same stored;
          }
    ]
  ]

  module _ (is_banned : Bool) (p : Peer e) where
    pub judged-same :
        ((judged is_banned p).id ≡ p.id) × ((judged is_banned p).known_txs ≡ p.known_txs)
    unfolding set_useless
    judged-same = (ground arith, ground arith)

    judged-id : (judged is_banned p).id ≡ p.id
    unfolding set_useless
    judged-id = ground arith

    judged-trusted : (judged is_banned p).trusted ≡ p.trusted
    unfolding set_useless
    judged-trusted = ground arith

    judged-marked :
        p.useless ≡ false → judged is_banned p ≡ record p { useless = not p.trusted && is_banned }
    unfolding set_useless
    judged-marked fresh = elim (Bool-cases (not p.trusted && is_banned)) [
      | inl bad ↦ rw bad refl
      | inr good ↦ rw good (λ i. record p { useless = fresh i })
    ]

    judged-useless : p.useless ≡ false → (judged is_banned p).useless ≡ (not p.trusted && is_banned)
    unfolding set_useless
    judged-useless fresh = ground arith

  -- When sessions register one after the other, `handle` keeps the limits: at most `max_peers`
  -- registered peers are not trusted, and at most half as many are useless. A peer that it admits has
  -- shaken hands and has an id that was free in an open set; it is the peer that came, marked as
  -- useless exactly if it is banned and not trusted, and registered under its id; every other id
  -- finds what it found. The peer that comes is not marked yet, as newPeer makes it.
  pub admit-Limited :
      (is_banned : Bool) (shaken : Option Error) (h : Handler e) (p : Peer e) {h' : Handler e}
      {p' : Peer e}
      → p.useless ≡ false
      → Limited h
      → admit is_banned shaken h p ≡ enters h' p'
      → Limited h'
        × (shaken ≡ none)
        × (h.peers.closed ≡ false)
        × (peer p.id h.peers ≡ none)
        × (p' ≡ record p { useless = not p.trusted && is_banned })
        × ((j : ℕ) → peer j h'.peers ≡ (if p.id == j then some p' else peer j h.peers))
  unfolding peer
  admit-Limited is_banned shaken h p {h'} {p'} fresh l s =
      let a = admit-Admitted is_banned shaken h p s in
      let same-id : p'.id ≡ p.id = ap (λ (q : Peer e). q.id) a.marked ∙ judged-id is_banned p in
      let lost : lookup p.id h.peers.peers ≡ none = rw same-id at a.free in
      rw a.stored (
        record {
          strangers =
              room_for (keep-store (λ q. not q.trusted) p' h.peers.peers a.free)
                (ap (λ (q : Peer e). q.trusted) a.marked ∙ judged-trusted is_banned p) a.few_peers;
          useless =
              room_for_useless (keep-store (λ q. q.useless) p' h.peers.peers a.free)
                (ap (λ (q : Peer e). q.useless) a.marked ∙ judged-useless is_banned p fresh)
                a.few_useless;
        },
        a.agreed,
        a.opened,
        lost,
        a.marked ∙ judged-marked is_banned p fresh,
        λ j. ground (arith, lookup-store p'.id j p' h.peers.peers, same-id),
      )
    where
      room_for :
          {n : ℕ}
          → n ≡ tally (λ q. not q.trusted) h.peers + (if not p'.trusted then 1 else 0)
          → p'.trusted ≡ p.trusted
          → too_many h p ≡ false
          → n ≤ h.max_peers
      room_for {n} one same few = ground (arith, one, same, few, len-tally h.peers, l.strangers)

      room_for_useless :
          {n : ℕ}
          → n ≡ tally (λ q. q.useless) h.peers + (if p'.useless then 1 else 0)
          → p'.useless ≡ (not p.trusted && is_banned)
          → too_useless is_banned h p ≡ false
          → n ≤ h.max_peers / 2
      room_for_useless {n} one same few =
          ground (arith, one, same, few, useless_num-tally h.peers, l.useless)

  -- The test for too many peers and the registration are two steps: where one place is left, two
  -- strangers that both pass the test before either registers are both registered, and the set is
  -- larger than `max_peers`.
  registers-overtaken :
      (h : Handler e) (p q : Peer e) {h1 h2 : Handler e} {p' q' : Peer e}
      → suc (len h.peers) ≡ h.max_peers
      → registers h p ≡ enters h1 p'
      → registers h1 q ≡ enters h2 q'
      → (too_many h p ≡ false) × (too_many h q ≡ false) × (h2.max_peers < len h2.peers)
  unfolding len
  registers-overtaken h p q {h1} {h2} {p'} {q'} one first second =
      let (_, _, free, stored) = registers-stored h h1 p p' first in
      let (_, _, free', stored') = registers-stored h1 h2 q q' second in
      (
        ground (arith, one),
        ground (arith, one),
        rw stored' (
            omega (
              arith,
              one,
              length-store p h.peers.peers free,
              length-store q h1.peers.peers free',
              ap (λ (x : Handler e). length x.peers.peers) stored,
              ap (λ (x : Handler e). x.max_peers) stored,
            )),
      )
