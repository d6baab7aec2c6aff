-- ===== src/PeerSet/Loops.antt =====
-- What the loops over the set of peers compute, and what a closed set still allows.
use mathlib.Core.List.{append_assoc, append-nil}
use sonicpeer.Base.{
  ℕ, suc, ◌+◌, ◌≡◌, refl, sym, ap, ◌∙◌, inl, inr, Bool, true, not, List, [], ◌∷◌, ◌++◌, none, arith,
  length, lookup, erase, lookup-store, keep, Bool-cases,
}
use sonicpeer.Env.{Env}
use sonicpeer.Known
use sonicpeer.Peer.{Peer, interested_in}
use sonicpeer.PeerSet.{
  PeerSet, register_peer, unregister_peer, peer, count_if, append_if, useless_num,
  peers_without_event, peers_without_tx, list, len, close, update,
}
use sonicpeer.PeerSet.Keyed.{values, quit, lookup-disconnect_all}
use sonicpeer.PeerSet.Directory.{Call, registers, updates, unregisters, closes, step, run}

module _ {e : Env} where
  append_if-keep :
      (test : Peer e → Bool) (dst : List (Peer e)) (m : List (ℕ × Peer e))
      → append_if test dst m ≡ dst ++ keep test (values m)
  unfolding append_if
  append_if-keep test dst [] = sym (append-nil dst)
  append_if-keep test dst ((k, p) ∷ m) = elim (Bool-cases (test p)) [
    | inl yes' ↦ rw yes' (append_if-keep test (dst ++ p ∷ []) m ∙ append_assoc dst (p ∷ []) _)
    | inr no' ↦ rw no' (append_if-keep test dst m)
  ]

  count_if-keep :
      (test : Peer e → Bool) (num : ℕ) (m : List (ℕ × Peer e))
      → count_if test num m ≡ num + length (keep test (values m))
  unfolding count_if
  count_if-keep test num [] = omega arith
  count_if-keep test num ((k, p) ∷ m) = elim (Bool-cases (test p)) [
    | inl yes' ↦ rw yes' (omega (arith, count_if-keep test (num + 1) m))
    | inr no' ↦ rw no' (count_if-keep test num m)
  ]

  keep_all : (l : List (Peer e)) → keep (λ p. true) l ≡ l
  keep_all [] = refl
  keep_all (p ∷ l) = ap (◌∷◌ p) (keep_all l)

  -- The loops visit every registered peer once: `PeersWithoutEvent` and `PeersWithoutTx` are exactly
  -- the peers of `List` that are interested in the event, or not known to have the transaction;
  -- `UselessNum` counts the useless peers of `List`.
  pub loops-keep :
      (ps : PeerSet e) (h : ℕ)
      → (peers_without_event h ps ≡ keep (λ p. interested_in p h) (list ps))
        × (peers_without_tx h ps ≡ keep (λ p. not (Known.contains p.known_txs h)) (list ps))
        × (useless_num ps ≡ length (keep (λ p. p.useless) (list ps)))
        × (len ps ≡ length (list ps))
  unfolding peers_without_event peers_without_tx useless_num list len
  loops-keep ps h =
      let all = append_if-keep (λ p. true) [] ps.peers ∙ keep_all (values ps.peers) in
      (
        append_if-keep (λ p. interested_in p h) [] ps.peers
            ∙ ap (keep (λ p. interested_in p h)) (sym all),
        append_if-keep _ [] ps.peers ∙ ap (keep _) (sym all),
        count_if-keep (λ p. p.useless) 0 ps.peers
            ∙ omega (arith, ap (λ l. length (keep (λ p. p.useless) l)) all),
        length_values ps.peers ∙ ap length (sym all),
      )
    where
      length_values : (m : List (ℕ × Peer e)) → length m ≡ length (values m)
      length_values [] = refl
      length_values ((k, p) ∷ m) = ap suc (length_values m)

  pub list-values : (ps : PeerSet e) → list ps ≡ values ps.peers
  unfolding list
  list-values ps = append_if-keep (λ p. true) [] ps.peers ∙ keep_all (values ps.peers)

  erase-free :
      (k id : ℕ) (m : List (ℕ × Peer e)) → lookup id m ≡ none → lookup id (erase k m) ≡ none
  erase-free k id [] h = refl
  erase-free k id ((j, p) ∷ m) h = ground (arith, erase-free k id m)

  closed-step :
      (c : Call e) (ps : PeerSet e) (id : ℕ)
      → ps.closed ≡ true
      → peer id ps ≡ none
      → ((step c ps).0.closed ≡ true) × (peer id (step c ps).0 ≡ none)
  unfolding step register_peer unregister_peer update close peer
  closed-step (registers p) ps id shut free = ground arith
  closed-step (updates p) ps id shut free = ground (arith, lookup-store p.id id p ps.peers)
  closed-step (unregisters k) ps id shut free = ground (arith, erase-free k id ps.peers)
  closed-step closes ps id shut free = (refl, lookup-disconnect_all id ps.peers ∙ ap quit free)

  -- A closed set registers no peer any more: whatever calls follow, the set stays closed, and an id
  -- that it did not have stays free.
  closed-run :
      (cs : List (Call e)) (ps : PeerSet e) (id : ℕ)
      → ps.closed ≡ true
      → peer id ps ≡ none
      → ((run cs ps).0.closed ≡ true) × (peer id (run cs ps).0 ≡ none)
  unfolding run
  closed-run [] ps id shut free = (shut, free)
  closed-run (c ∷ cs) ps id shut free =
      let (shut', free') = closed-step c ps id shut free in
      closed-run cs (step c ps).0 id shut' free'
