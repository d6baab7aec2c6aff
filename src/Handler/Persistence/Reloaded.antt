-- ===== src/Handler/Persistence/Reloaded.antt =====
-- What is saved is found again.
use sonicpeer.Base.{
  ℕ, suc, ◌≤◌, ◌<◌, ◌≡◌, refl, ap, ◌∙◌, true, false, List, [], ◌∷◌, map, Option, none, some, arith,
  ◌==◌, length, lookup, store, lookup-store, Distinct, store-Distinct, All, Bool-cases,
  Option-cases, inl, inr, zero,
}
use sonicpeer.Env.{Env}
use sonicpeer.Peer.{Peer}
use sonicpeer.PeerSet.{list}
use sonicpeer.PeerSet.Keyed.{values}
use sonicpeer.Handler.{Handler}
use sonicpeer.Handler.Persistence.{
  add_connected, add_discovered, all_nodes, save_peers, load_nodes, load_peers,
}

-- The first answer that there is.
abbrev pub either {ℓ} : {A : Type ℓ} → Option A → Option A → Option A
either none y = y
either (some x) y = some x

module _ {N : Type 0} (node_id : N → ℕ) where
  -- Every node is under its own id.
  abbrev pub IsOwn : List (ℕ × N) → Type 0
  IsOwn nodes = All (λ x. node_id x.1 ≡ x.0) nodes

  store-IsOwn :
      (id : ℕ) (n : N) (nodes : List (ℕ × N))
      → node_id n ≡ id
      → IsOwn nodes
      → IsOwn (store id n nodes)
  store-IsOwn id n [] own all = (own, tt)
  store-IsOwn id n ((j, o) ∷ nodes) own all = elim (Bool-cases (j == id)) [
    | inl same ↦ rw same (own, all.1)
    | inr other ↦ rw other (all.0, store-IsOwn id n nodes own all.1)
  ]

  lookup-add_discovered :
      (id : ℕ) (discovered nodes : List (ℕ × N))
      → Distinct discovered
      → lookup id (add_discovered discovered nodes)
        ≡ either (lookup id discovered) (lookup id nodes)
  unfolding add_discovered
  lookup-add_discovered id [] nodes dist = refl
  lookup-add_discovered id ((k, n) ∷ discovered) nodes dist =
      let rest = lookup-add_discovered id discovered (store k n nodes) dist.1 in
      let stored = lookup-store k id n nodes in
      elim (Bool-cases (k == id)) [
        | inl same ↦
            let gone : lookup id discovered ≡ none = ground (arith, dist.0) in
            rw same (rest ∙ rw gone (stored ∙ rw same refl))
        | inr other ↦ rw other (rest ∙ ap (either (lookup id discovered)) (stored ∙ rw other refl))
      ]

  -- A map of nodes under their own ids without two for one id.
  abbrev pub IsMap : List (ℕ × N) → Type 0
  IsMap nodes = Distinct nodes × IsOwn nodes

  store-IsMap :
      (id : ℕ) (n : N) (nodes : List (ℕ × N))
      → node_id n ≡ id
      → IsMap nodes
      → IsMap (store id n nodes)
  store-IsMap id n nodes own (dist, all) =
      (store-Distinct id n nodes dist, store-IsOwn id n nodes own all)

  add_discovered-IsMap :
      (discovered nodes : List (ℕ × N))
      → IsOwn discovered
      → IsMap nodes
      → IsMap (add_discovered discovered nodes)
  unfolding add_discovered
  add_discovered-IsMap [] nodes own m = m
  add_discovered-IsMap ((k, n) ∷ discovered) nodes own m =
      add_discovered-IsMap discovered (store k n nodes) own.1 (store-IsMap k n nodes own.0 m)

length_texts :
    {N T : Type 0} (text : N → T) (nodes : List (ℕ × N))
    → length (map text (values nodes)) ≡ length nodes
length_texts text [] = refl
length_texts text (x ∷ nodes) = ap suc (length_texts text nodes)

module _ (e : Env) where
  -- The loop finds the nodes of a map, if the handler does not quit before.
  load_nodes-add_discovered :
      ((n : e.Node) → e.parse_node (e.node_text n) ≡ some n)
      → (sends : ℕ) (nodes discovered : List (ℕ × e.Node)) → length nodes ≤ sends
      → IsOwn e.node_id nodes
      → load_nodes e sends (map e.node_text (values nodes)) discovered
        ≡ (add_discovered nodes discovered, values nodes)
  unfolding load_nodes add_discovered
  load_nodes-add_discovered parses sends [] discovered enough own = refl
  load_nodes-add_discovered parses zero ((k, n) ∷ nodes) discovered enough own =
      absurd (omega (arith, enough))
  load_nodes-add_discovered parses (suc left) ((k, n) ∷ nodes) discovered enough own =
      let rest =
        load_nodes-add_discovered parses left nodes (store (e.node_id n) n discovered)
          (omega (arith, enough)) own.1 in
      rw (parses n)
        (rw rest (ap (λ i. (add_discovered nodes (store i n discovered), n ∷ values nodes)) own.0))

module _ {e : Env} where
  add_connected-IsMap :
      (node_of : Peer e → Option e.Node) (ps : List (Peer e)) (nodes : List (ℕ × e.Node))
      → IsMap e.node_id nodes
      → IsMap e.node_id (add_connected node_of ps nodes)
  unfolding add_connected
  add_connected-IsMap node_of [] nodes m = m
  add_connected-IsMap node_of (p ∷ ps) nodes m = elim (Option-cases (node_of p)) [
    | inl none' ↦ rw (none', add_connected) (add_connected-IsMap node_of ps nodes m)
    | inr (n, here) ↦
        rw (here, add_connected)
          (add_connected-IsMap node_of ps _ (store-IsMap e.node_id (e.node_id n) n nodes refl m))
  ]

  -- What is saved is loaded again: the nodes that savePeers writes, of which there is one at least, are
  -- exactly those that loadPeers suggests, in the order of the file, if the handler does not quit
  -- before. The loading handler then finds a node under an id as it was saved, and one that was not
  -- saved as it found it before; and what was saved under an id is the discovered node, or else the
  -- node of a connected peer. Assumed are that a node's text parses as the node, that JSON reads what it
  -- writes, and that the file holds what is written to it.
  pub load_peers-save_peers :
      ((n : e.Node) → e.parse_node (e.node_text n) ≡ some n)
      → (marshal : List (List ℕ) → Option (List ℕ)) (unmarshal : List ℕ → Option (List (List ℕ)))
      → ((nodes : List (List ℕ))
          → (text : List ℕ) × (marshal nodes ≡ some text) × (unmarshal text ≡ some nodes))
      → (node_of : Peer e → Option e.Node) (file : Option (List ℕ)) (sends : ℕ)
        (h loading : Handler e)
      → Distinct h.discovered_nodes
      → IsOwn e.node_id h.discovered_nodes
      → 0 < length (all_nodes node_of h)
      → length (all_nodes node_of h) ≤ sends
      → (discovered : List (ℕ × e.Node)) × (load_peers unmarshal true sends
            (save_peers node_of marshal some true file h)
            loading
          ≡ (record loading { discovered_nodes = discovered }, values (all_nodes node_of h)))
        × ((id : ℕ)
            → (lookup id discovered
                ≡ either (lookup id (all_nodes node_of h)) (lookup id loading.discovered_nodes))
              × (lookup id (all_nodes node_of h)
                  ≡ either
                      (lookup id h.discovered_nodes)
                      (lookup id (add_connected node_of (list h.peers) []))))
  unfolding load_peers save_peers all_nodes
  load_peers-save_peers parses marshal unmarshal reads node_of file sends h loading dist own some'
        enough =
      let nodes = all_nodes node_of h in
      let saved : IsMap e.node_id nodes =
        add_discovered-IsMap e.node_id h.discovered_nodes _ own
          (add_connected-IsMap node_of (list h.peers) [] (tt, tt)) in
      let (text, writes, back) = reads (map e.node_text (values nodes)) in
      let any : (length (map e.node_text (values nodes)) == 0) ≡ false =
        ground (arith, length_texts e.node_text nodes, some') in
      (
        add_discovered nodes loading.discovered_nodes,
        rw any (
            rw writes (
              rw back (
                rw
                  (load_nodes-add_discovered e parses sends nodes loading.discovered_nodes enough
                    saved.1)
                  refl))),
        λ id. (
          lookup-add_discovered e.node_id id nodes loading.discovered_nodes saved.0,
          lookup-add_discovered e.node_id id h.discovered_nodes _ dist,
        ),
      )
