-- ===== src/Peer/Handshake/Mutual.antt =====
-- The handshake between two nodes that both run this code.
use sonicpeer.Base.{
  ℕ, ◌^◌, ◌≤◌, ◌<◌, ◌≡◌, ◌≢◌, refl, sym, ap, ◌∙◌, ◌↔◌, inl, inr, List, [], ◌∷◌, Option, none, some,
  arith, some-injective, subst,
}
use sonicpeer.Env.{Env, Read, failed, received, WireLaws}
use sonicpeer.Protocol.{PeerProgress}
use sonicpeer.Protocol.Code
use sonicpeer.Peer.{Peer}
use sonicpeer.Peer.Handshake.{
  own_handshake, send_handshake, read_status, Arrival, value, timeout, await, handshake,
}
use sonicpeer.Peer.Handshake.Agreed.{
  Matches, Delivers, IsAnnounced, read_status-Matches, send_handshake-announced, handshake-agrees,
}

-- No timeout comes.
abbrev pub InTime : List Arrival → Type 0
InTime [] = Unit
InTime (timeout ∷ arrivals) = ⊥
InTime (value v ∷ arrivals) = InTime arrivals

await-InTime :
    (arrivals : List Arrival)
    → Delivers (none ∷ []) (none ∷ []) arrivals
    → InTime arrivals
    → await 2 arrivals ≡ some none
unfolding await
await-InTime [] d t = absurd (ground arith)
await-InTime (timeout ∷ rest) d t = absurd t
await-InTime (value (some z) ∷ rest) d t = absurd (ground arith)
await-InTime (value none ∷ []) d t = absurd (ground arith)
await-InTime (value none ∷ timeout ∷ rest) d t = absurd t
await-InTime (value none ∷ value (some z) ∷ rest) d t = absurd (ground arith)
await-InTime (value none ∷ value none ∷ rest) d t = refl

-- One node of two: its configuration and its peer, what it reads from that peer and in which order
-- its goroutines deliver.
pub record Side (e : Env) : Type 0 where
  pub network : ℕ
  pub genesis : ℕ
  pub progress : PeerProgress
  pub peer : Peer e
  pub reads : Read e
  pub arrivals : List Arrival

module _ {e : Env} (wire : WireLaws e) where
  abbrev pub ReturnsNil : Side e → Type 0
  ReturnsNil a = handshake a.arrivals ≡ some none

  -- The side writes without an error, and its goroutines deliver before the timeout.
  pub record Speaks (a : Side e) : Type 0 where
    pub announced : IsAnnounced a.network a.progress a.genesis a.peer
    pub delivers :
        Delivers
          (send_handshake a.network a.progress a.genesis a.peer).1
          (read_status a.network a.genesis a.reads a.peer ∷ [])
          a.arrivals
    pub in_time : InTime a.arrivals

  -- What the one side reads is what the other has written, within the size limit.
  abbrev pub Hears : Side e → Side e → Type 0
  Hears a b =
      (raw : List ℕ) × (size : ℕ) × (e.encode_handshake (own_handshake b.network b.genesis b.peer)
        ≡ some raw)
      × (size ≤ e.max_msg_size)
      × (a.reads ≡ received Code.handshake size (wire.payload raw))

  body_of : Read e → Option e.Body
  body_of (failed x) = none
  body_of (received code size body) = some body

  Hears-accepts :
      (a b : Side e)
      → Hears a b
      → (read_status a.network a.genesis a.reads a.peer ≡ none)
        ↔ Matches a.peer.version a.network a.genesis (own_handshake b.network b.genesis b.peer)
  unfolding body_of
  Hears-accepts a b (raw, size, encodes, small, heard) =
      let decodes =
        wire.decode-encode_handshake (own_handshake b.network b.genesis b.peer) raw encodes in
      let (only, then') = read_status-Matches a.network a.genesis a.reads a.peer in
      (
        λ accepts.
            let (size', body', h, same, small', decodes', m) = only accepts in
            let bodies = some-injective (ap body_of (sym heard ∙ same)) in
            let own = some-injective (sym decodes ∙ ap e.decode_handshake bodies ∙ decodes') in
            subst (Matches a.peer.version a.network a.genesis) (sym own) m,
        λ m. then' (
          size,
          wire.payload raw,
          own_handshake b.network b.genesis b.peer,
          heard,
          small,
          decodes,
          m,
        ),
      )

  Speaks-nil :
      (a : Side e)
      → Speaks a
      → ReturnsNil a ↔ (read_status a.network a.genesis a.reads a.peer ≡ none)
  unfolding handshake
  Speaks-nil a speaks =
      let (result, runs, only, then') =
        handshake-agrees a.network a.progress a.genesis a.reads a.peer a.arrivals speaks.delivers in
      (
        λ nil. (only (some-injective (sym runs ∙ nil))).1,
        λ accepts.
            let one =
              send_handshake-announced a.network a.progress a.genesis a.peer speaks.announced in
            await-InTime a.arrivals
              (subst (λ l. Delivers l (none ∷ []) a.arrivals) one
                (subst
                  (λ x.
                    Delivers (send_handshake a.network a.progress a.genesis a.peer).1 (x ∷ [])
                      a.arrivals)
                  accepts speaks.delivers))
              speaks.in_time,
      )

  Matches-sym :
      (a b : Side e)
      → a.network ≢ 0
      → b.peer.version < 2 ^ 32
      → a.peer.version < 2 ^ 32
      → Matches a.peer.version a.network a.genesis (own_handshake b.network b.genesis b.peer)
      → b.network ≢ 0
      → Matches b.peer.version b.network b.genesis (own_handshake a.network a.genesis a.peer)
  Matches-sym a b some_a small_b small_a (same, networks, versions) some_b = (
    sym same,
    elim networks [ inl zero' ↦ absurd (some_b zero') | inr same' ↦ inr (sym same') ],
    omega (arith, versions, small_a, small_b),
  )

  -- Two nodes that run this code and hear what the other has written, with versions of 32 bits and network ids that are
  -- not 0, agree on each other: if neither has an error of the connection or a timeout, then
  -- `Handshake` returns nil on the one side exactly if it does on the other, whatever the order in
  -- which the goroutines of each deliver.
  pub handshake_agree :
      (a b : Side e)
      → Speaks a
      → Speaks b
      → Hears a b
      → Hears b a
      → a.network ≢ 0
      → b.network ≢ 0
      → a.peer.version < 2 ^ 32
      → b.peer.version < 2 ^ 32
      → ReturnsNil a ↔ ReturnsNil b
  handshake_agree a b speaks_a speaks_b hears_a hears_b some_a some_b small_a small_b =
      let (nil_a, accepts_a) = Speaks-nil a speaks_a in
      let (nil_b, accepts_b) = Speaks-nil b speaks_b in
      let (only_a, then_a) = Hears-accepts a b hears_a in
      let (only_b, then_b) = Hears-accepts b a hears_b in
      (
        λ nil.
            accepts_b (then_b (Matches-sym a b some_a small_b small_a (only_a (nil_a nil)) some_b)),
        λ nil.
            accepts_a (then_a (Matches-sym b a some_b small_a small_b (only_b (nil_b nil)) some_a)),
      )
