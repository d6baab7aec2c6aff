-- ===== src/PeerSet/Directory.antt =====
-- The set of peers refines a directory: a partial function from ids to peers, and a flag.
use mathlib.Core.Path.{ap₂, subst₂}
use sonicpeer.Base.{
  ℕ, ◌≡◌, refl, sym, ap, ◌∙◌, inl, inr, Bool, true, false, List, [], ◌∷◌, Option, none, some, arith,
  if◌then◌else◌, ◌==◌, store, erase, lookup-store, Bool-cases,
}
use sonicpeer.Env.{Env}
use sonicpeer.Protocol.{Error}
use sonicpeer.Peer.{Peer}
use sonicpeer.PeerSet.{PeerSet, register_peer, unregister_peer, peer, close, update}
use sonicpeer.PeerSet.Keyed.{
  IsKeyed, lookup-erase, store-IsKeyed, erase-IsKeyed, lookup-disconnect_all,
  disconnect_all-IsKeyed, quit,
}

-- The calls that change the set.
pub data Call (e : Env) : Type 0 where
  registers updates : Peer e → Call e
  unregisters : ℕ → Call e
  closes : Call e

module _ {e : Env} where
  unfoldable pub step : Call e → PeerSet e → PeerSet e × Option Error
  step (registers p) ps = register_peer p ps
  step (updates p) ps = (update p ps, none)
  step (unregisters id) ps = unregister_peer id ps
  step closes ps = (close ps, none)

  -- The set afterwards, and what the calls returned.
  unfoldable pub run : List (Call e) → PeerSet e → PeerSet e × List (Option Error)
  run [] ps = (ps, [])
  run (c ∷ cs) ps =
      let (ps', err) = step c ps in let (ps'', errs) = run cs ps' in (ps'', err ∷ errs)

-- What the set promises: a partial function from ids to peers, and a flag.
pub record Directory (e : Env) : Type 0 where
  pub find : ℕ → Option (Peer e)
  pub shut : Bool

module _ {e : Env} where
  abbrev put : Peer e → (ℕ → Option (Peer e)) → ℕ → Option (Peer e)
  put p f j = if p.id == j then some p else f j

  abbrev remove : ℕ → (ℕ → Option (Peer e)) → ℕ → Option (Peer e)
  remove id f j = if id == j then none else f j

  abbrev promised : Call e → Directory e → Directory e × Option Error
  promised (registers p) d =
      if d.shut then (d, some Error.peer_set_closed) else elim (d.find p.id) [
        | some _ ↦ (d, some Error.peer_already_registered)
        | none ↦ (record d { find = put p d.find }, none)
      ]
  promised (updates p) d =
      (elim (d.find p.id) [ none ↦ d | some _ ↦ record d { find = put p d.find } ], none)
  promised (unregisters id) d = elim (d.find id) [
    | none ↦ (d, some Error.peer_not_registered)
    | some _ ↦ (record d { find = remove id d.find }, none)
  ]
  promised closes d = (record { find = λ j. quit (d.find j); shut = true }, none)

  abbrev pub promised_run : List (Call e) → Directory e → Directory e × List (Option Error)
  promised_run [] d = (d, [])
  promised_run (c ∷ cs) d =
      let (d', err) = promised c d in let (d'', errs) = promised_run cs d' in (d'', err ∷ errs)

  pub record Refines (ps : PeerSet e) (d : Directory e) : Type 0 where
    pub keyed : IsKeyed ps.peers
    pub found : (j : ℕ) → peer j ps ≡ d.find j
    pub flag : ps.closed ≡ d.shut

  abbrev Refined : PeerSet e × Option Error → Directory e × Option Error → Type 0
  Refined r s = Refines r.0 s.0 × (r.1 ≡ s.1)

  transfer :
      {r r' : PeerSet e × Option Error} {s s' : Directory e × Option Error}
      → r ≡ r'
      → s ≡ s'
      → Refined r' s'
      → Refined r s
  transfer p q h = subst₂ Refined (sym p) (sym q) h

  module _ (ps : PeerSet e) (d : Directory e) (r : Refines ps d) where
    stored :
        (p : Peer e)
        → Refines (record ps { peers = store p.id p ps.peers }) (record d { find = put p d.find })
    unfolding peer
    stored p = record {
      keyed = store-IsKeyed p ps.peers r.keyed;
      found = λ j. ground (arith, lookup-store p.id j p ps.peers, r.found j);
      flag = r.flag;
    }

    erased :
        (id : ℕ)
        → Refines (record ps { peers = erase id ps.peers }) (record d { find = remove id d.find })
    unfolding peer
    erased id = record {
      keyed = erase-IsKeyed id ps.peers r.keyed;
      found = λ j. ground (arith, lookup-erase id j ps.peers r.keyed, r.found j);
      flag = r.flag;
    }

    closed_down : Refines (close ps) (record { find = λ j. quit (d.find j); shut = true })
    unfolding peer close
    closed_down = record {
      keyed = disconnect_all-IsKeyed ps.peers r.keyed;
      found = λ j. lookup-disconnect_all j ps.peers ∙ ap quit (r.found j);
      flag = refl;
    }

    module _ (p : Peer e) where
      register_shut : d.shut ≡ true → Refined (register_peer p ps) (promised (registers p) d)
      unfolding register_peer
      register_shut h =
          transfer {r' = (ps, some Error.peer_set_closed)} {s' = (d, some Error.peer_set_closed)}
            (ground (arith, r.flag)) (ground arith) (r, refl)

      register_open :
          (o : Option (Peer e))
          → d.find p.id ≡ o
          → d.shut ≡ false
          → Refined (register_peer p ps) (promised (registers p) d)
      unfolding register_peer peer
      register_open none free h =
          transfer {r' = (record ps { peers = store p.id p ps.peers }, none)}
            {s' = (record d { find = put p d.find }, none)} (ground (arith, r.flag, r.found p.id))
            (ground arith) (stored p, refl)
      register_open (some q) taken h =
          transfer {r' = (ps, some Error.peer_already_registered)}
            {s' = (d, some Error.peer_already_registered)} (ground (arith, r.flag, r.found p.id))
            (ground arith) (r, refl)

      update-Refined :
          (o : Option (Peer e))
          → d.find p.id ≡ o
          → Refined (update p ps, none) (promised (updates p) d)
      unfolding update peer
      update-Refined none free =
          transfer {r' = (ps, none)} {s' = (d, none)} (ground (arith, r.found p.id)) (ground arith)
            (r, refl)
      update-Refined (some q) taken =
          transfer {r' = (record ps { peers = store p.id p ps.peers }, none)}
            {s' = (record d { find = put p d.find }, none)} (ground (arith, r.found p.id))
            (rw taken) (stored p, refl)

    unregister-Refined :
        (id : ℕ) (o : Option (Peer e))
        → d.find id ≡ o
        → Refined (unregister_peer id ps) (promised (unregisters id) d)
    unfolding unregister_peer peer
    unregister-Refined id none free =
        transfer {r' = (ps, some Error.peer_not_registered)}
          {s' = (d, some Error.peer_not_registered)} (ground (arith, r.found id)) (ground arith)
          (r, refl)
    unregister-Refined id (some q) taken =
        transfer {r' = (record ps { peers = erase id ps.peers }, none)}
          {s' = (record d { find = remove id d.find }, none)} (ground (arith, r.found id))
          (rw (taken, promised)) (erased id, refl)

  step-Refined :
      (c : Call e) (ps : PeerSet e) (d : Directory e)
      → Refines ps d
      → Refined (step c ps) (promised c d)
  unfolding step
  step-Refined (registers p) ps d r = elim (Bool-cases d.shut) [
    | inl shut ↦ register_shut ps d r p shut
    | inr up ↦ register_open ps d r p (d.find p.id) refl up
  ]
  step-Refined (updates p) ps d r = update-Refined ps d r p (d.find p.id) refl
  step-Refined (unregisters id) ps d r = unregister-Refined ps d r id (d.find id) refl
  step-Refined closes ps d r = (closed_down ps d r, refl)

  -- Whatever the calls, the set answers as the directory does, with the same errors, and holds what
  -- the directory holds.
  pub run-Refines :
      (cs : List (Call e)) (ps : PeerSet e) (d : Directory e)
      → Refines ps d
      → Refines (run cs ps).0 (promised_run cs d).0 × ((run cs ps).1 ≡ (promised_run cs d).1)
  unfolding run
  run-Refines [] ps d r = (r, refl)
  run-Refines (c ∷ cs) ps d r =
      let (r', same) = step-Refined c ps d r in
      let (r'', others) = run-Refines cs (step c ps).0 (promised c d).0 r' in
      (r'', ap₂ ◌∷◌ same others)
