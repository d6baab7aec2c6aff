-- ===== src/Handler/Admission/Ended.antt =====
-- What a session leaves behind when it has ended.
use sonicpeer.Base.{
  ℕ, ◌≡◌, ◌≢◌, ◌↔◌, subst, refl, ap, sym, ◌∙◌, inl, inr, List, [], ◌∷◌, ◌++◌, Option, none, some,
  arith, if◌then◌else◌, ◌==◌, lookup, lookup-store, Option-cases,
}
use sonicpeer.Env.{Env, SemaphoreLaws}
use sonicpeer.Known.Fifo.{IsValid}
use sonicpeer.Protocol.{Error}
use sonicpeer.Peer.{Peer}
use sonicpeer.PeerSet.{PeerSet, peer, unregister_peer, update}
use sonicpeer.PeerSet.Keyed.{IsKeyed, store-IsKeyed, lookup-erase}
use sonicpeer.Handler.{Handler}
use sonicpeer.Handler.Messages.{handle_msg}
use sonicpeer.Handler.Messages.Released.{SameHeld, handle_msg-SameHeld}
use sonicpeer.Handler.Admission.{Incoming, unregister, writes, serve, session}

module _ {e : Env} where
  -- The set of peers after writes to the peer `id`.
  pub record Touched (id : ℕ) (ps ps' : PeerSet e) : Type 0 where
    pub keyed : IsKeyed ps'.peers
    pub others : (j : ℕ) → id ≢ j → peer j ps' ≡ peer j ps
    pub there : peer id ps' ≢ none

  unregister-peer :
      (id j : ℕ) (h : Handler e)
      → IsKeyed h.peers.peers
      → peer j (unregister id h).peers ≡ (if id == j then none else peer j h.peers)
  unfolding unregister unregister_peer peer
  unregister-peer id j h keyed = elim (Option-cases (lookup id h.peers.peers)) [
    | inl free ↦ rw (free, unregister) (ground (arith, free))
    | inr (p, found) ↦
        rw (found, unregister) (rw (found, unregister_peer) (lookup-erase id j h.peers.peers keyed))
  ]

  unregister-msg_semaphore :
      (id : ℕ) (h : Handler e) → (unregister id h).msg_semaphore ≡ h.msg_semaphore
  unfolding unregister peer
  unregister-msg_semaphore id h = elim (Option-cases (lookup id h.peers.peers)) [
    | inl free ↦ rw (free, unregister) refl
    | inr (p, found) ↦ rw (found, unregister) refl
  ]

  update-Touched :
      (p : Peer e) (ps : PeerSet e)
      → IsKeyed ps.peers
      → peer p.id ps ≢ none
      → Touched p.id ps (update p ps)
  unfolding update peer
  update-Touched p ps keyed there = elim (Option-cases (lookup p.id ps.peers)) [
    | inl gone ↦ absurd (there gone)
    | inr (q, found) ↦
        rw (found, update)
          (record {
            keyed = store-IsKeyed p ps.peers keyed;
            others = λ j other. ground (arith, lookup-store p.id j p ps.peers, other);
            there = λ gone. ground (arith, lookup-store p.id p.id p ps.peers, gone);
          })
  ]

  pub writes-Touched :
      (h h' : Handler e) (p p' : Peer e)
      → h'.peers ≡ h.peers
      → p'.id ≡ p.id
      → IsKeyed h.peers.peers
      → peer p.id h.peers ≢ none
      → Touched p.id h.peers (writes p' h').peers
  writes-Touched h h' p p' same same-id keyed there =
      subst (λ i. Touched i h.peers (update p' h'.peers)) same-id
        (subst (λ ps. Touched p'.id ps (update p' h'.peers)) same
          (update-Touched p' h'.peers
            (subst (λ (ps : PeerSet e). IsKeyed ps.peers) (sym same) keyed)
            (λ gone.
              there (ap (λ i. peer i h.peers) (sym same-id) ∙ ap (peer p'.id) (sym same) ∙ gone))))

  Touched-trans : {id : ℕ} {a b c : PeerSet e} → Touched id a b → Touched id b c → Touched id a c
  Touched-trans s t = record {
    keyed = t.keyed;
    others = λ j other. t.others j other ∙ s.others j other;
    there = t.there;
  }

module _ {e : Env} (laws : SemaphoreLaws e) where
  record Served (ms : List (Incoming e)) (h : Handler e) (p : Peer e) : Type 0 where
    handler : Handler e
    peer' : Peer e
    hooked : List e.Tx
    error : Option Error
    runs : serve ms h p ≡ some (handler, peer', hooked, error)
    held : SameHeld laws handler.msg_semaphore h.msg_semaphore
    valid : IsValid peer'.known_txs
    touched : Touched p.id h.peers handler.peers

  SameHeld-trans : {a b c : e.Semaphore} → SameHeld laws a b → SameHeld laws b c → SameHeld laws a c
  SameHeld-trans s t = (s.0 ∙ t.0, s.1 ∙ t.1)

  serve-Served :
      (ms : List (Incoming e)) (h : Handler e) (p : Peer e)
      → IsValid p.known_txs
      → IsKeyed h.peers.peers
      → peer p.id h.peers ≢ none
      → Served ms h p
  unfolding serve
  serve-Served [] h p v keyed there = record {
    handler = h;
    peer' = p;
    hooked = [];
    error = none;
    runs = refl;
    held = (refl, refl);
    valid = v;
    touched = record { keyed = keyed; others = λ j other. refl; there = there };
  }
  serve-Served (m ∷ ms) h p v keyed there =
      let (h', p', hooked, err, runs, held, v', same, same-id) =
        handle_msg-SameHeld laws m.now m.later m.read h p v in
      go h' p' hooked err runs held v' (writes-Touched h h' p p' same same-id keyed there) same-id
        (serve-Served ms (writes p' h') p' v')
    where
      go :
          (h' : Handler e) (p' : Peer e) (hooked : List e.Tx) (err : Option Error)
          → handle_msg m.now m.later m.read h p ≡ some (h', p', hooked, err)
          → SameHeld laws h'.msg_semaphore h.msg_semaphore
          → IsValid p'.known_txs
          → Touched p.id h.peers (writes p' h').peers
          → p'.id ≡ p.id
          → (IsKeyed (writes p' h').peers.peers
              → peer p'.id (writes p' h').peers ≢ none
              → Served ms (writes p' h') p')
          → Served (m ∷ ms) h p
      go h' p' hooked (some x) runs held v' t same-id ih = record {
        handler = writes p' h';
        peer' = p';
        hooked = hooked;
        error = some x;
        runs = rw runs refl;
        held = held;
        valid = v';
        touched = t;
      }
      go h' p' hooked none runs held v' t same-id ih =
          let r =
            ih t.keyed (subst (λ i. peer i (writes p' h').peers ≢ none) (sym same-id) t.there) in
          record {
            handler = r.handler;
            peer' = r.peer';
            hooked = hooked ++ r.hooked;
            error = r.error;
            runs = rw runs (rw r.runs refl);
            held = SameHeld-trans r.held held;
            valid = r.valid;
            touched =
                Touched-trans t
                  (subst (λ i. Touched i (writes p' h').peers r.handler.peers) same-id r.touched);
          }

  pub session-ends :
      (ms : List (Incoming e)) (h : Handler e) (p : Peer e)
      → IsValid p.known_txs
      → IsKeyed h.peers.peers
      → peer p.id h.peers ≢ none
      → (h' : Handler e) × (p' : Peer e) × (hooked : List e.Tx) × (err : Option Error) × (session ms
            h p
          ≡ some (h', p', hooked, err))
        × SameHeld laws h'.msg_semaphore h.msg_semaphore
        × ((peer p.id h'.peers ≡ none) ↔ (err ≢ none))
        × ((j : ℕ) → p.id ≢ j → peer j h'.peers ≡ peer j h.peers)
  unfolding session
  session-ends ms h p v keyed there =
      let r = serve-Served ms h p v keyed there in
      go r.handler r.peer' r.hooked r.error r.runs r.held r.touched
    where
      go :
          (h' : Handler e) (p' : Peer e) (hooked : List e.Tx) (err : Option Error)
          → serve ms h p ≡ some (h', p', hooked, err)
          → SameHeld laws h'.msg_semaphore h.msg_semaphore
          → Touched p.id h.peers h'.peers
          → (h'' : Handler e) × (p'' : Peer e) × (hooked' : List e.Tx) × (err' : Option Error)
            × (session ms h p ≡ some (h'', p'', hooked', err'))
            × SameHeld laws h''.msg_semaphore h.msg_semaphore
            × ((peer p.id h''.peers ≡ none) ↔ (err' ≢ none))
            × ((j : ℕ) → p.id ≢ j → peer j h''.peers ≡ peer j h.peers)
      go h' p' hooked none runs held t = (
        h',
        p',
        hooked,
        none,
        rw runs refl,
        held,
        (λ gone. absurd (t.there gone), λ n. absurd (n refl)),
        t.others,
      )
      go h' p' hooked (some x) runs held t = (
        unregister p.id h',
        p',
        hooked,
        some x,
        rw runs refl,
        rw (unregister-msg_semaphore p.id h') held,
        (λ gone e'. ground (arith, e'), λ n. unregister-peer p.id p.id h' t.keyed ∙ ground arith),
        λ j other. unregister-peer p.id j h' t.keyed ∙ ground (arith, other) ∙ t.others j other,
      )
