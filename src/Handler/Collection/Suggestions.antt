-- ===== src/Handler/Collection/Suggestions.antt =====
-- Whom the handler hands to the dialer.
use sonicpeer.Base.{
  some-injective, ℕ, zero, suc, ◌+◌, ◌≤◌, ◌≡◌, ◌≢◌, refl, sym, subst, ◌∙◌, inl, inr, Bool, false,
  ◌&&◌, ltb, leb, List, [], ◌∷◌, ◌++◌, map, none, some, arith, if◌then◌else◌, ◌==◌, length,
  length-append, count, not-member-count, member, All, All-snoc, Bool-cases, Option-cases,
}
use sonicpeer.Env.{Env}
use sonicpeer.PeerSet.{PeerSet, peer, list}
use sonicpeer.Topology.{Advisor, get_new_peer_suggestion}
use sonicpeer.Topology.Suggested.{get_new_peer_suggestion-IsNew}
use sonicpeer.Handler.{Handler}
use sonicpeer.Handler.Collection.{suggest, collect}

count-snoc :
    {N : Type 0} (f : N → ℕ) (j : ℕ) (l : List N) (x : N)
    → count j (map f (l ++ x ∷ [])) ≡ count j (map f l) + (if f x == j then 1 else 0)
count-snoc f j [] x = omega arith
count-snoc f j (y ∷ l) x = omega (arith, count-snoc f j l x)

suggestion-New :
    {R : Type 0} (get_id : R → ℕ) (rand : ℕ → ℕ) (now : ℕ) (c : Advisor R) (n : R)
    → rand 1 ≡ 0
    → (get_new_peer_suggestion get_id rand now c).1 ≡ some n
    → (get_id n ≢ c.local_id)
      × ((get_new_peer_suggestion get_id rand now c).0.local_id ≡ c.local_id)
unfolding get_new_peer_suggestion
suggestion-New get_id rand now c n first found =
    elim (get_new_peer_suggestion-IsNew get_id rand now c first) [
      | inl (p, is_p, reported, new) ↦
          (subst (λ q. get_id q ≢ c.local_id) (some-injective (sym is_p ∙ found)) new.0, refl)
      | inr (nobody, rest) ↦ absurd (ground (arith, found, nobody))
    ]

module _ {e : Env} where
  -- Nodes that may be dialled: none of them is the node itself or registered, and none is there twice.
  pub record Suggestions (ps : PeerSet e) (local_id limit : ℕ) (nodes : List e.Node) : Type 0 where
    pub new : All (λ n. (e.node_id n ≢ local_id) × (peer (e.node_id n) ps ≡ none)) nodes
    pub once : (j : ℕ) → count j (map e.node_id nodes) ≤ 1
    pub bounded : length nodes ≤ limit

  wider :
      (ps : PeerSet e) (local_id n m : ℕ) (nodes : List e.Node)
      → n ≤ m
      → Suggestions ps local_id n nodes
      → Suggestions ps local_id m nodes
  wider ps local_id n m nodes more s = record {
    new = s.new;
    once = s.once;
    bounded = omega (arith, more, s.bounded);
  }

  one_more :
      (ps : PeerSet e) (local_id so_far : ℕ) (suggested : List e.Node) (n : e.Node)
      → e.node_id n ≢ local_id
      → peer (e.node_id n) ps ≡ none
      → member (e.node_id n) (map e.node_id suggested) ≡ false
      → Suggestions ps local_id so_far suggested
      → Suggestions ps local_id (so_far + 1) (suggested ++ n ∷ [])
  one_more ps local_id so_far suggested n other free unseen s = record {
    new = All-snoc _ suggested n s.new (other, free);
    once = λ j. ground (
      arith,
      count-snoc e.node_id j suggested n,
      s.once j,
      not-member-count (e.node_id n) (map e.node_id suggested) unseen,
    );
    bounded = omega (arith, length-append suggested (n ∷ []), s.bounded);
  }

  suggest-Suggestions :
      (room : ℕ → Bool) (draw : ℕ → ℕ → ℕ) (clock : ℕ → ℕ) (ps : PeerSet e) (local_id : ℕ)
      → ((i : ℕ) → draw i 1 ≡ 0)
      → (left so_far : ℕ) (c : Advisor e.Node) (suggested : List e.Node) → c.local_id ≡ local_id
      → Suggestions ps local_id so_far suggested
      → Suggestions ps local_id (so_far + left) (suggest room draw clock ps left c suggested).1
  unfolding suggest
  suggest-Suggestions room draw clock ps local_id first zero so_far c suggested own s =
      wider ps local_id so_far (so_far + 0) suggested (omega arith) s
  suggest-Suggestions room draw clock ps local_id first (suc left) so_far c suggested own s =
      let ended = wider ps local_id so_far (so_far + suc left) suggested (omega arith) s in
      elim (Option-cases (get_new_peer_suggestion e.node_id (draw left) (clock left) c).1) [
        | inl nobody ↦ rw (nobody, suggest) ended
        | inr (n, found) ↦
            let (other, same) =
              suggestion-New e.node_id (draw left) (clock left) c n (first left) found in
            let c' = (get_new_peer_suggestion e.node_id (draw left) (clock left) c).0 in
            let skipped =
              wider ps local_id (so_far + left) (so_far + suc left)
                (suggest room draw clock ps left c' suggested).1 (omega arith)
                (suggest-Suggestions room draw clock ps local_id first left so_far c' suggested
                  (same ∙ own) s) in
            elim (Bool-cases (member (e.node_id n) (map e.node_id suggested))) [
              | inl seen ↦ rw (found, suggest) (rw seen skipped)
              | inr unseen ↦ elim (Option-cases (peer (e.node_id n) ps)) [
                | inr (p, known) ↦ rw (found, suggest) (rw unseen (rw known skipped))
                | inl free ↦ elim (Bool-cases (room left)) [
                  | inr full ↦ rw (found, suggest) (rw unseen (rw free (rw full ended)))
                  | inl fits ↦
                      rw (found, suggest)
                        (rw unseen (
                          rw free (
                            rw fits (
                              wider ps local_id (so_far + 1 + left) (so_far + suc left)
                                (suggest room draw clock ps left c' (suggested ++ n ∷ [])).1
                                (omega arith)
                                (suggest-Suggestions room draw clock ps local_id first left
                                  (so_far + 1) c' (suggested ++ n ∷ []) (same ∙ own)
                                  (one_more ps local_id so_far suggested n
                                    (λ h. other (h ∙ sym own)) free unseen s))))))
                ]
              ]
            ]
      ]

  -- What `collect` hands to the dialer is 32 nodes at most, none of them twice; none of them is the
  -- node itself, and none is registered.
  pub collect-Suggestions :
      (room : ℕ → Bool) (draw : ℕ → ℕ → ℕ) (clock : ℕ → ℕ) (period : ℕ) (h : Handler e)
      → ((i : ℕ) → draw i 1 ≡ 0)
      → Suggestions h.peers h.connection_advisor.local_id 32 (collect room draw clock period h).1
  unfolding collect
  collect-Suggestions room draw clock period h first =
      let s : Suggestions h.peers h.connection_advisor.local_id 32
          (suggest room draw clock h.peers 32 h.connection_advisor []).1 =
        wider h.peers h.connection_advisor.local_id (0 + 32) 32
          (suggest room draw clock h.peers 32 h.connection_advisor []).1 (omega arith)
          (suggest-Suggestions room draw clock h.peers h.connection_advisor.local_id first 32 0
            h.connection_advisor [] refl
            (record { new = tt; once = λ j. omega arith; bounded = omega arith })) in
      elim (Bool-cases (
        ltb 0 (length (suggest room draw clock h.peers 32 h.connection_advisor []).1)
        && leb h.max_peers (length (list h.peers)))) [
          | inl drops ↦ rw (drops, collect) s
          | inr keeps ↦ rw (keeps, collect) s
        ]
