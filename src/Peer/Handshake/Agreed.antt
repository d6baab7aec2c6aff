-- ===== src/Peer/Handshake/Agreed.antt =====
-- When the handshake of a peer is accepted.
use sonicpeer.Base.{
  ℕ, ◌≤◌, ◌≡◌, refl, ap, ◌∙◌, ◌↔◌, ◌⊎◌, inl, inr, false, List, [], ◌∷◌, Option, none, some, arith,
  ltb, Option-cases,
}
use sonicpeer.Env.{Env, Read, failed, received}
use sonicpeer.Protocol.{Error, PeerProgress, HandshakeData}
use sonicpeer.Protocol.Code
use sonicpeer.Peer.{Peer}
use sonicpeer.Peer.Sync.{send, send_encoded, send_progress}
use sonicpeer.Peer.Handshake.{
  own_handshake, send_handshake, check_handshake, read_status, Arrival, value, timeout, await,
  handshake,
}

-- A handshake of the same chain and version; a network id of 0 stands for any network.
abbrev pub Matches : ℕ → ℕ → ℕ → HandshakeData → Type 0
Matches version network genesis h =
    (h.genesis ≡ genesis)
    × ((h.network_id ≡ 0) ⊎ (h.network_id ≡ network))
    × (h.protocol_version ≡ version)

check_handshake-Matches :
    (version network genesis : ℕ) (h : HandshakeData)
    → (check_handshake version network genesis h ≡ none) ↔ Matches version network genesis h
unfolding check_handshake
check_handshake-Matches version network genesis h = (λ e. ground arith, λ m. ground arith)

-- A merge of what two goroutines deliver, which the timeout may cut short.
abbrev pub Delivers : List (Option Error) → List (Option Error) → List Arrival → Type 0
Delivers xs ys [] = (xs ≡ []) × (ys ≡ [])
Delivers xs ys (timeout ∷ arrivals) = Unit
Delivers xs ys (value v ∷ arrivals) =
    ((rest : List (Option Error)) × (xs ≡ v ∷ rest) × Delivers rest ys arrivals)
    ⊎ ((rest : List (Option Error)) × (ys ≡ v ∷ rest) × Delivers xs rest arrivals)

module _ {e : Env} where
  -- `readStatus` accepts exactly a handshake message within the size limit, which decodes to the
  -- genesis and the version of the node and to its network or to network 0.
  pub read_status-Matches :
      (network genesis : ℕ) (r : Read e) (p : Peer e)
      → (read_status network genesis r p ≡ none) ↔ (
          (size : ℕ) × (body : e.Body) × (h : HandshakeData) × (r
            ≡ received Code.handshake size body)
          × (size ≤ e.max_msg_size)
          × (e.decode_handshake body ≡ some h)
          × Matches p.version network genesis h)
  unfolding read_status
  read_status-Matches network genesis r p = (
    accepts r,
    λ (size, body, h, message, small, decodes, m).
        let fits : ltb e.max_msg_size size ≡ false = ground (arith, small) in
        rw message
          (rw fits (rw decodes ((check_handshake-Matches p.version network genesis h).1 m))),
  )
    where
      accepts :
          (r : Read e)
          → read_status network genesis r p ≡ none
          → (size : ℕ) × (body : e.Body) × (h : HandshakeData) × (r
              ≡ received Code.handshake size body)
            × (size ≤ e.max_msg_size)
            × (e.decode_handshake body ≡ some h)
            × Matches p.version network genesis h
      accepts (failed x) n = absurd (ground (arith, n))
      accepts (received code size body) n = elim (Option-cases (e.decode_handshake body)) [
        | inl fails ↦ absurd (ground (arith, n, fails))
        | inr (h, decodes) ↦ (
          size,
          body,
          h,
          ground (arith, n),
          ground (arith, n),
          decodes,
          (check_handshake-Matches p.version network genesis h).0 (ground (arith, n, decodes)),
        )
      ]

  -- The handshake of the node and its progress are encoded and written.
  abbrev pub IsAnnounced : ℕ → PeerProgress → ℕ → Peer e → Type 0
  IsAnnounced network progress genesis p =
      (raw : List ℕ) × (raw' : List ℕ) × (e.encode_handshake (own_handshake network genesis p)
        ≡ some raw)
      × ((send Code.handshake raw p).1 ≡ none)
      × (e.encode_progress progress ≡ some raw')
      × ((send Code.progress raw' (send Code.handshake raw p).0).1 ≡ none)

  module _ (network : ℕ) (progress : PeerProgress) (genesis : ℕ) (p : Peer e) where
    abbrev sent : List (Option Error)
    sent = (send_handshake network progress genesis p).1

    -- What the goroutine delivers: one value, or an error and one more.
    data Shape : Type 0 where
      announced : sent ≡ none ∷ [] → IsAnnounced network progress genesis p → Shape
      failed_once :
          (x : Error) → sent ≡ some x ∷ [] → ¬ IsAnnounced network progress genesis p → Shape
      failed_twice :
          (x : Error) (y : Option Error)
          → sent ≡ some x ∷ y ∷ []
          → ¬ IsAnnounced network progress genesis p
          → Shape

    sent-Shape : Shape
    unfolding send_handshake send_progress
    sent-Shape = elim (Option-cases (e.encode_handshake (own_handshake network genesis p))) [
      | inl fails ↦
          failed_once Error.encode_failed (rw (fails, sent, send_handshake))
            (λ a. ground (arith, fails, a.2))
      | inr (raw, encodes) ↦ elim (Option-cases (send Code.handshake raw p).1) [
        | inr (x, fails) ↦
            failed_twice x (send_progress progress (send Code.handshake raw p).0).1
              (rw (encodes, sent, send_handshake) (rw fails))
              (λ a. ground (arith, fails, encodes, a.2, a.3))
        | inl writes ↦
            ended raw encodes writes (e.encode_progress progress) refl
              (rw (encodes, sent, send_handshake) (rw writes refl))
      ]
    ]
      where
        ended :
            (raw : List ℕ)
            → e.encode_handshake (own_handshake network genesis p) ≡ some raw
            → (send Code.handshake raw p).1 ≡ none
            → (o : Option (List ℕ)) → e.encode_progress progress ≡ o
            → sent ≡ (send_encoded Code.progress o (send Code.handshake raw p).0).1 ∷ []
            → Shape
        ended raw encodes writes none fails one =
            failed_once Error.encode_failed one (λ a. ground (arith, fails, a.4))
        ended raw encodes writes (some raw') encoded one =
            go (send Code.progress raw' (send Code.handshake raw p).0).1 refl
          where
            go :
                (err : Option Error)
                → (send Code.progress raw' (send Code.handshake raw p).0).1 ≡ err
                → Shape
            go none ok =
                announced (one ∙ ap (λ x. x ∷ []) ok) (raw, raw', encodes, writes, encoded, ok)
            go (some x) bad =
                failed_once x (one ∙ ap (λ x. x ∷ []) bad)
                  (λ a. ground (arith, encodes, a.2, encoded, a.4, a.5, bad))

module _ {e : Env} where
  -- A goroutine that writes both messages delivers one nil.
  pub send_handshake-announced :
      (network : ℕ) (progress : PeerProgress) (genesis : ℕ) (p : Peer e)
      → IsAnnounced network progress genesis p
      → (send_handshake network progress genesis p).1 ≡ none ∷ []
  send_handshake-announced network progress genesis p writes =
      elim (sent-Shape network progress genesis p) [
        | announced one yes' ↦ one
        | failed_once x one no' ↦ absurd (no' writes)
        | failed_twice x y two no' ↦ absurd (no' writes)
      ]

await-one :
    (x y : Option Error) (arrivals : List Arrival)
    → Delivers (x ∷ []) (y ∷ []) arrivals
    → (r : Option Error) × (await 2 arrivals ≡ some r)
      × (r ≡ none → (x ≡ none) × (y ≡ none))
      × ((x ≡ none) × (y ≡ none) → (r ≡ none) ⊎ (r ≡ some Error.disc_read_timeout))
unfolding await
await-one x y [] d = absurd (ground arith)
await-one x y (timeout ∷ rest) d =
    (some Error.disc_read_timeout, refl, λ h. ground (arith, h), λ h. inr refl)
await-one x y (value (some z) ∷ rest) d = (some z, refl, λ h. ground (arith, h), λ h. ground arith)
await-one x y (value none ∷ []) d = absurd (ground arith)
await-one x y (value none ∷ timeout ∷ rest) d =
    (some Error.disc_read_timeout, refl, λ h. ground (arith, h), λ h. inr refl)
await-one x y (value none ∷ value (some z) ∷ rest) d =
    (some z, refl, λ h. ground (arith, h), λ h. ground arith)
await-one x y (value none ∷ value none ∷ rest) d = (none, refl, λ h. ground arith, λ h. inl refl)

await-failed :
    (x : Error) (z y : Option Error) (arrivals : List Arrival)
    → Delivers (some x ∷ z ∷ []) (y ∷ []) arrivals
    → (r : Error) × (await 2 arrivals ≡ some (some r))
unfolding await
await-failed x z y [] d = absurd (ground arith)
await-failed x z y (timeout ∷ rest) d = (Error.disc_read_timeout, refl)
await-failed x z y (value (some w) ∷ rest) d = (w, refl)
await-failed x z y (value none ∷ []) d = absurd (ground arith)
await-failed x z y (value none ∷ timeout ∷ rest) d = (Error.disc_read_timeout, refl)
await-failed x z y (value none ∷ value (some w) ∷ rest) d = (w, refl)
await-failed x z y (value none ∷ value none ∷ rest) d = absurd (ground arith)

module _ {e : Env} where
  -- Whatever the order in which the two goroutines deliver, `Handshake` returns: nil only if the
  -- handshake and the progress of the node were encoded and written and `readStatus` accepts the
  -- peer; and if so, the only error is that the timeout came first.
  pub handshake-agrees :
      (network : ℕ) (progress : PeerProgress) (genesis : ℕ) (r : Read e) (p : Peer e)
      (arrivals : List Arrival)
      → let status = read_status network genesis r p in
        Delivers (send_handshake network progress genesis p).1 (status ∷ []) arrivals
        → (result : Option Error) × (handshake arrivals ≡ some result)
          × (result ≡ none → IsAnnounced network progress genesis p × (status ≡ none))
          × (IsAnnounced network progress genesis p × (status ≡ none)
              → (result ≡ none) ⊎ (result ≡ some Error.disc_read_timeout))
  unfolding handshake
  handshake-agrees network progress genesis r p arrivals d =
      elim (sent-Shape network progress genesis p) [
        | announced one yes' ↦
            let (result, runs, only, then') =
              await-one none (read_status network genesis r p) arrivals (rw one at d) in
            (result, runs, λ h. (yes', (only h).1), λ h. then' (refl, h.1))
        | failed_once x one no' ↦
            let (result, runs, only, then') =
              await-one (some x) (read_status network genesis r p) arrivals (rw one at d) in
            (result, runs, λ h. absurd (ground (arith, (only h).0)), λ h. absurd (no' h.0))
        | failed_twice x y two no' ↦
            let (z, runs) =
              await-failed x y (read_status network genesis r p) arrivals (rw two at d) in
            (some z, runs, λ h. absurd (ground (arith, h)), λ h. absurd (no' h.0))
      ]
