-- ===== src/Handler/Broadcast/Txset.antt =====
-- The map of peers with their transactions, while it is filled.
use sonicpeer.Base.{
  ℕ, ◌<◌, ◌≡◌, sym, ap, subst, ◌∙◌, inl, inr, false, List, [], ◌∷◌, some, arith, ◌==◌, length,
  lookup, store, Distinct, All, Bool-cases,
}
use sonicpeer.Handler.Broadcast.{txs_of}
use sonicpeer.Handler.Broadcast.Offered.{entry}

module _ {T : Type 0} where
  -- The map of peers with their transactions has no empty entry, and no two for one peer.
  abbrev pub IsTxset : List (ℕ × List T) → Type 0
  IsTxset m = Distinct m × All (λ x. 0 < length x.1) m

  pub store-All :
      (P : ℕ × List T → Type 0) (k : ℕ) (l : List T) (m : List (ℕ × List T))
      → P (k, l)
      → All P m
      → All P (store k l m)
  store-All P k l [] h all = (h, tt)
  store-All P k l ((i, v) ∷ m) h all = elim (Bool-cases (i == k)) [
    | inl same ↦ rw same (h, all.1)
    | inr other ↦ rw other (all.0, store-All P k l m h all.1)
  ]

  pub absent_from :
      (j : ℕ) (m l : List (ℕ × List T))
      → txs_of j m ≡ []
      → All (λ x. lookup x.0 m ≡ some x.1) l
      → All (λ x. 0 < length x.1) l
      → All (λ x. (x.0 == j) ≡ false) l
  absent_from j m [] nothing found full = tt
  absent_from j m ((k, txs) ∷ l) nothing found full = (
    (elim (Bool-cases (k == j)) [
      | inl same ↦
          let key : k ≡ j = ground arith in
          let here' : lookup j m ≡ some txs = subst (λ i. lookup i m ≡ some txs) key found.0 in
          absurd (omega (arith, full.0, ap length (sym (ap entry here') ∙ nothing)))
      | inr other ↦ other
    ]),
    absent_from j m l nothing found.1 full.1,
  )
