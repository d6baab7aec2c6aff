-- ===== src/PeerSet/Keyed.antt =====
-- The map of peers as a registry of distinct ids, under each of the writes to it.
use sonicpeer.Base.{
  ℕ, ◌≡◌, refl, inl, inr, List, [], ◌∷◌, Option, none, some, arith, if◌then◌else◌, ◌==◌, lookup,
  store, erase, lookup-store, Bool-cases,
}
use sonicpeer.Env.{Env}
use sonicpeer.Protocol.{Error}
use sonicpeer.Peer.{Peer, disconnect}
use sonicpeer.PeerSet.{disconnect_all}

-- The peers of a map, in the order in which a loop visits them.
abbrev pub values {ℓ} : {V : Type ℓ} → List (ℕ × V) → List V
values [] = []
values ((k, v) ∷ m) = v ∷ values m

-- Every entry is under the id of its peer, and no id has two entries.
abbrev pub IsKeyed : {e : Env} → List (ℕ × Peer e) → Type 0
IsKeyed [] = Unit
IsKeyed ((k, p) ∷ m) = (p.id ≡ k) × (lookup k m ≡ none) × IsKeyed m

module _ {e : Env} where
  pub lookup-erase :
      (k j : ℕ) (m : List (ℕ × Peer e))
      → IsKeyed m
      → lookup j (erase k m) ≡ (if k == j then none else lookup j m)
  lookup-erase k j [] h = ground arith
  lookup-erase k j ((i, p) ∷ m) h = ground (arith, lookup-erase k j m h.2, h.1)

  pub store-IsKeyed : (p : Peer e) (m : List (ℕ × Peer e)) → IsKeyed m → IsKeyed (store p.id p m)
  store-IsKeyed p [] h = (refl, refl, tt)
  store-IsKeyed p ((i, q) ∷ m) h = elim (Bool-cases (i == p.id)) [
    | inl same ↦ rw same (refl, ground (arith, h.1), h.2)
    | inr other ↦
        rw other (h.0, ground (arith, lookup-store p.id i p m, h.1), store-IsKeyed p m h.2)
  ]

  pub erase-IsKeyed : (k : ℕ) (m : List (ℕ × Peer e)) → IsKeyed m → IsKeyed (erase k m)
  erase-IsKeyed k [] h = tt
  erase-IsKeyed k ((i, q) ∷ m) h = elim (Bool-cases (i == k)) [
    | inl same ↦ rw same h.2
    | inr other ↦ rw other (h.0, ground (arith, lookup-erase k i m h.2, h.1), erase-IsKeyed k m h.2)
  ]

  abbrev pub quit : Option (Peer e) → Option (Peer e)
  quit none = none
  quit (some p) = some (record p { disconnected = some Error.disc_quitting })

  pub lookup-disconnect_all :
      (j : ℕ) (m : List (ℕ × Peer e)) → lookup j (disconnect_all m) ≡ quit (lookup j m)
  unfolding disconnect_all disconnect
  lookup-disconnect_all j [] = refl
  lookup-disconnect_all j ((i, q) ∷ m) = ground (arith, lookup-disconnect_all j m)

  pub disconnect_all-IsKeyed : (m : List (ℕ × Peer e)) → IsKeyed m → IsKeyed (disconnect_all m)
  unfolding disconnect_all disconnect
  disconnect_all-IsKeyed [] h = tt
  disconnect_all-IsKeyed ((i, q) ∷ m) h =
      (h.0, ground (arith, lookup-disconnect_all i m, h.1), disconnect_all-IsKeyed m h.2)
