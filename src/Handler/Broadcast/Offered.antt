-- ===== src/Handler/Broadcast/Offered.antt =====
-- What BroadcastTxs gathers for each peer.
use mathlib.Core.List.{append_assoc, append-nil}
use sonicpeer.Base.{
  ℕ, ◌≡◌, refl, sym, ap, ◌∙◌, inl, inr, Bool, true, false, not, List, [], ◌∷◌, ◌++◌, Option, none,
  some, arith, if◌then◌else◌, ◌==◌, lookup, store, lookup-store, keep, Bool-cases,
}
use sonicpeer.Env.{Env}
use sonicpeer.Known
use sonicpeer.Peer.{Peer}
use sonicpeer.PeerSet.{PeerSet, peer}
use sonicpeer.PeerSet.Keyed.{IsKeyed, values}
use sonicpeer.PeerSet.Loops.{loops-keep, list-values}
use sonicpeer.Handler.Broadcast.{txs_of, give, gather}

abbrev pub entry : {T : Type 0} → Option (List T) → List T
entry none = []
entry (some txs) = txs

-- What `append` on `txset[peer]` makes of each entry.
pub txs_of-store :
    {T : Type 0} (k id : ℕ) (tx : T) (m : List (ℕ × List T))
    → txs_of id (store k (txs_of k m ++ tx ∷ []) m)
      ≡ txs_of id m ++ (if k == id then tx ∷ [] else [])
txs_of-store k id tx m = elim (Bool-cases (k == id)) [
  | inl same ↦
      let key : k ≡ id = ground arith in
      let found : lookup id (store k (txs_of k m ++ tx ∷ []) m) ≡ some (txs_of k m ++ tx ∷ []) =
        lookup-store k id (txs_of k m ++ tx ∷ []) m ∙ rw same refl in
      rw same (ap entry found ∙ ap (λ j. txs_of j m ++ tx ∷ []) key)
  | inr other ↦
      let found : lookup id (store k (txs_of k m ++ tx ∷ []) m) ≡ lookup id m =
        lookup-store k id (txs_of k m ++ tx ∷ []) m ∙ rw other refl in
      rw other (ap entry found ∙ sym (append-nil (txs_of id m)))
]

module _ {e : Env} where
  -- What a peer that may be absent is offered, given a test on it.
  abbrev offer_if : (Peer e → Bool) → e.Tx → Option (Peer e) → List e.Tx
  offer_if test tx none = []
  offer_if test tx (some p) = if test p then tx ∷ [] else []

  -- The transactions that a peer is not known to have; nothing for an absent peer.
  abbrev pub unknown : List e.Tx → Option (Peer e) → List e.Tx
  unknown txs none = []
  unknown txs (some p) = keep (λ tx. not (Known.contains p.known_txs (e.tx_hash tx))) txs

  -- The offer of a map is that of its first entry and that of the rest, one of which is empty.
  offer_if-cons :
      (test : Peer e → Bool) (tx : e.Tx) (k : ℕ) (p : Peer e) (m : List (ℕ × Peer e)) (id : ℕ)
      → lookup k m ≡ none
      → offer_if test tx (lookup id ((k, p) ∷ m))
        ≡ (if test p then (if k == id then tx ∷ [] else []) else [])
          ++ offer_if test tx (lookup id m)
  offer_if-cons test tx k p m id new = elim (Bool-cases (k == id)) [
    | inl same ↦
        let gone : lookup id m ≡ none = ground (arith, new) in rw same (rw gone (alone (test p)))
    | inr other ↦ rw other (alike (test p))
  ]
    where
      alone : (b : Bool) → (if b then tx ∷ [] else []) ≡ (if b then tx ∷ [] else []) ++ []
      alone true = refl
      alone false = refl

      alike :
          (b : Bool)
          → offer_if test tx (lookup id m)
            ≡ (if b then [] else []) ++ offer_if test tx (lookup id m)
      alike true = refl
      alike false = refl

  give-offers :
      (test : Peer e → Bool) (tx : e.Tx) (m : List (ℕ × Peer e)) (s : List (ℕ × List e.Tx)) (id : ℕ)
      → IsKeyed m
      → txs_of id (give {e = e} tx (keep test (values m)) s)
        ≡ txs_of id s ++ offer_if test tx (lookup id m)
  unfolding give
  give-offers test tx [] s id keyed = sym (append-nil _)
  give-offers test tx ((k, p) ∷ m) s id (own, new, keyed) =
      let first = offer_if-cons test tx k p m id new in
      elim (Bool-cases (test p)) [
        | inl yes' ↦
            let mine = if k == id then tx ∷ [] else [] in
            let s' = store p.id (txs_of p.id s ++ tx ∷ []) s in
            let stored : txs_of id s' ≡ txs_of id s ++ mine =
              txs_of-store p.id id tx s
              ∙ ap (λ j. txs_of id s ++ (if j == id then tx ∷ [] else [])) own in
            rw yes' (
              give-offers test tx m s' id keyed
              ∙ ap (λ l. l ++ offer_if test tx (lookup id m)) stored
              ∙ append_assoc (txs_of id s) mine (offer_if test tx (lookup id m))
              ∙ ap (◌++◌ (txs_of id s)) (sym (rw yes' at first)))
        | inr no' ↦
            rw no'
              (give-offers test tx m s id keyed ∙ ap (◌++◌ (txs_of id s)) (sym (rw no' at first)))
      ]

  unknown-nil : (found : Option (Peer e)) → unknown [] found ≡ []
  unknown-nil none = refl
  unknown-nil (some p) = refl

  unknown-offer :
      (tx : e.Tx) (txs : List e.Tx) (found : Option (Peer e))
      → unknown (tx ∷ txs) found
        ≡ offer_if (λ p. not (Known.contains p.known_txs (e.tx_hash tx))) tx found
          ++ unknown txs found
  unknown-offer tx txs none = refl
  unknown-offer tx txs (some p) = ground arith

  gather-appends :
      (ps : PeerSet e) (id : ℕ) (txs : List e.Tx) (s : List (ℕ × List e.Tx))
      → IsKeyed ps.peers
      → txs_of id (gather {e = e} txs ps s) ≡ txs_of id s ++ unknown txs (lookup id ps.peers)
  unfolding gather
  gather-appends ps id [] s keyed =
      rw (unknown-nil (lookup id ps.peers)) (sym (append-nil (txs_of id s)))
  gather-appends ps id (tx ∷ txs) s keyed =
      let free = (loops-keep ps (e.tx_hash tx)).1 ∙ ap (keep _) (list-values ps) in
      rw free (
        gather-appends ps id txs _ keyed
        ∙ ap (λ l. l ++ unknown txs (lookup id ps.peers)) (give-offers _ tx ps.peers s id keyed)
        ∙ append_assoc (txs_of id s) _ _
        ∙ ap (◌++◌ (txs_of id s)) (sym (unknown-offer tx txs (lookup id ps.peers))))

  -- Each registered peer is offered exactly those of the transactions, in their order, that it is not
  -- known to have, and an id that is not registered is offered none.
  pub gather-unknown :
      (txs : List e.Tx) (ps : PeerSet e) (id : ℕ)
      → IsKeyed ps.peers
      → txs_of id (gather {e = e} txs ps []) ≡ unknown txs (peer id ps)
  unfolding peer
  gather-unknown txs ps id keyed = gather-appends ps id txs [] keyed
