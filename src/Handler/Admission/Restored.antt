-- ===== src/Handler/Admission/Restored.antt =====
-- What `handle` leaves behind when it has returned.
use sonicpeer.Base.{
  ℕ, ◌≡◌, ◌≢◌, subst, refl, ap, sym, ◌∙◌, inl, inr, Bool, false, List, [], Option, none, some,
  arith, ◌==◌, lookup, store, lookup-store, Bool-cases,
}
use sonicpeer.Env.{Env, SemaphoreLaws}
use sonicpeer.Known.Fifo.{IsValid}
use sonicpeer.Protocol.{Error}
use sonicpeer.Peer.{Peer}
use sonicpeer.PeerSet.{peer}
use sonicpeer.PeerSet.Keyed.{IsKeyed, store-IsKeyed}
use sonicpeer.Handler.{Handler}
use sonicpeer.Handler.Messages.Released.{SameHeld}
use sonicpeer.Peer.Sync.{send_peer_info_request, send_end_point_update_request}
use sonicpeer.Handler.Admission.{Entry, enters, refused, Incoming, writes, welcome, admit, handle}
use sonicpeer.Handler.Admission.Limited.{admit-Admitted, judged-same}
use sonicpeer.Handler.Admission.Ended.{Touched, writes-Touched, session-ends}

module _ {e : Env} where
  welcome-same : (p : Peer e) → ((welcome p).id ≡ p.id) × ((welcome p).known_txs ≡ p.known_txs)
  unfolding welcome send_peer_info_request send_end_point_update_request
  welcome-same p = (ground arith, ground arith)

  -- The state in which the session of an admitted peer begins.
  record Begun (h h' : Handler e) (p q : Peer e) : Type 0 where
    same_id : q.id ≡ p.id
    valid : IsValid q.known_txs
    touched : Touched q.id h'.peers (writes q h').peers
    free : peer p.id h.peers ≡ none
    others : (j : ℕ) → p.id ≢ j → peer j h'.peers ≡ peer j h.peers
    same_held : (writes q h').msg_semaphore ≡ h.msg_semaphore

  admit-Begun :
      (is_banned : Bool) (shaken : Option Error) (h h' : Handler e) (p p' : Peer e)
      → IsValid p.known_txs
      → IsKeyed h.peers.peers
      → admit is_banned shaken h p ≡ enters h' p'
      → Begun h h' p (welcome p')
  unfolding peer
  admit-Begun is_banned shaken h h' p p' v keyed s =
      let a = admit-Admitted is_banned shaken h p s in
      let (id-kept, marks-kept) = welcome-same p' in
      let (id-judged, marks-judged) = judged-same is_banned p in
      let id' : p'.id ≡ p.id = ap (λ (x : Peer e). x.id) a.marked ∙ id-judged in
      let marks : p'.known_txs ≡ p.known_txs =
        ap (λ (x : Peer e). x.known_txs) a.marked ∙ marks-judged in
      let map : h'.peers.peers ≡ store p'.id p' h.peers.peers =
        ap (λ (x : Handler e). x.peers.peers) a.stored in
      let found = λ (j : ℕ). ap (lookup j) map ∙ lookup-store p'.id j p' h.peers.peers in
      record {
        same_id = id-kept ∙ id';
        valid = subst IsValid (sym (marks-kept ∙ marks)) v;
        touched =
            subst (λ i. Touched i h'.peers (writes (welcome p') h').peers) (sym id-kept)
              (writes-Touched h' h' p' (welcome p') refl id-kept
                (subst IsKeyed (sym map) (store-IsKeyed p' h.peers.peers keyed))
                (λ gone. ground (arith, found p'.id, gone)));
        free = rw id' at a.free;
        others = λ j other. ground (arith, found j, id', other);
        same_held = ap (λ (x : Handler e). x.msg_semaphore) a.stored;
      }

module _ {e : Env} (laws : SemaphoreLaws e) where
  -- `handle` returns, or still waits for messages, for every list of messages, if the marks of the
  -- peer are valid; it leaves the semaphore of the handler with what it held. When it has returned
  -- with an error, whether the peer was refused or its session has ended, every id finds the peer in
  -- the set that it found before.
  pub handle-ends :
      (is_banned : Bool) (shaken : Option Error) (ms : List (Incoming e)) (h : Handler e)
      (p : Peer e)
      → IsValid p.known_txs
      → IsKeyed h.peers.peers
      → (h' : Handler e) × (p' : Peer e) × (hooked : List e.Tx) × (bans : Bool) × (err : Option
          Error)
        × (handle is_banned shaken ms h p ≡ some (h', p', hooked, bans, err))
        × SameHeld laws h'.msg_semaphore h.msg_semaphore
        × (err ≢ none → (j : ℕ) → peer j h'.peers ≡ peer j h.peers)
  unfolding handle
  handle-ends is_banned shaken ms h p v keyed = go (admit is_banned shaken h p) refl
    where
      go :
          (a : Entry e)
          → admit is_banned shaken h p ≡ a
          → (h' : Handler e) × (p' : Peer e) × (hooked : List e.Tx) × (bans : Bool) × (err : Option
              Error)
            × (handle is_banned shaken ms h p ≡ some (h', p', hooked, bans, err))
            × SameHeld laws h'.msg_semaphore h.msg_semaphore
            × (err ≢ none → (j : ℕ) → peer j h'.peers ≡ peer j h.peers)
      go (refused p' bans x) s =
          (h, p', [], bans, some x, rw (s, handle) refl, (refl, refl), λ n j. refl)
      go (enters h' p') s =
          let q = welcome p' in
          let b = admit-Begun is_banned shaken h h' p p' v keyed s in
          let (h'', q', hooked, err, runs, held, gone, others) =
            session-ends laws ms (writes q h') q b.valid b.touched.keyed b.touched.there in
          (
            h'',
            q',
            hooked,
            false,
            err,
            rw (s, handle) (rw runs refl),
            subst (SameHeld laws h''.msg_semaphore) b.same_held held,
            λ n j. elim (Bool-cases (p.id == j)) [
              | inl same ↦
                  let at : p.id ≡ j = ground (arith, same) in
                  ap (λ i. peer i h''.peers) (sym at ∙ sym b.same_id)
                  ∙ gone.1 n
                  ∙ sym b.free
                  ∙ ap (λ i. peer i h.peers) at
              | inr other ↦
                  let apart : p.id ≢ j = ground (arith, other) in
                  others j (λ x. apart (sym b.same_id ∙ x))
                  ∙ b.touched.others j (λ x. apart (sym b.same_id ∙ x))
                  ∙ b.others j apart
            ],
          )
