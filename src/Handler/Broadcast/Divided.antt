-- ===== src/Handler/Broadcast/Divided.antt =====
-- How BroadcastEvent divides the interested peers.
use mathlib.Core.List.{append_assoc, append-nil}
use sonicpeer.Base.{
  ℕ, zero, suc, ◌+◌, ◌-◌, ◌≡◌, refl, sym, ap, ◌∙◌, inl, inr, Bool, true, false, not, ◌&&◌, List, [],
  ◌∷◌, ◌++◌, arith, if◌then◌else◌, ltb, ◌==◌, length, length-append, take, count, keep, All,
  All-snoc, Bool-cases,
}
use sonicpeer.Env.{Env}
use sonicpeer.Peer.{Peer}
use sonicpeer.Handler.Broadcast.{share}

module _ {ℓ} {A : Type ℓ} where
  pub take-nil : (n : ℕ) → ◌≡◌ {A = List A} (take n []) []
  take-nil zero = refl
  take-nil (suc n) = refl

  -- One step of a loop that keeps elements while there is room.
  take-fits :
      (limit k : ℕ) (b : Bool) (x : A) (l : List A)
      → b && ltb k limit ≡ true
      → take (limit - k) (if b then x ∷ l else l) ≡ x ∷ take (limit - (k + 1)) l
  take-fits limit k false x l h = absurd (ground arith)
  take-fits limit k true x l h =
      let room : limit - k ≡ suc (limit - (k + 1)) = ground arith in ap (λ n. take n (x ∷ l)) room

  take-leaves :
      (limit k : ℕ) (b : Bool) (x : A) (l : List A)
      → b && ltb k limit ≡ false
      → take (limit - k) (if b then x ∷ l else l) ≡ take (limit - k) l
  take-leaves limit k false x l h = refl
  take-leaves limit k true x l h =
      let full : limit - k ≡ 0 = ground arith in
      ap (λ n. take n (x ∷ l)) full ∙ ap (λ n. take n l) (sym full)

module _ {e : Env} where
  abbrev pub ids : List (Peer e) → List ℕ
  ids [] = []
  ids (p ∷ l) = p.id ∷ ids l

  count-snoc :
      (j : ℕ) (l : List (Peer e)) (p : Peer e)
      → count j (ids (l ++ p ∷ [])) ≡ count j (ids l) + (if p.id == j then 1 else 0)
  count-snoc j [] p = omega arith
  count-snoc j (q ∷ l) p = omega (arith, count-snoc j l p)

  -- What the loop does to lists that it has begun to fill: the first peers that are not useless get the
  -- event, as many as fit, and all the others its hash.
  pub record Shares (limit : ℕ) (l full hashes : List (Peer e)) (r : List (Peer e) × List (Peer e))
      : Type 1 where
    pub chosen : r.0 ≡ full ++ take (limit - length full) (keep (λ p. not p.useless) l)
    pub counted :
        (j : ℕ)
        → count j (ids r.0) + count j (ids r.1)
          ≡ count j (ids full) + count j (ids hashes) + count j (ids l)
    pub kept : (P : Peer e → Type 0) → All P full → All P hashes → All P l → All P r.0 × All P r.1

  pub share-Shares :
      (limit : ℕ) (l full hashes : List (Peer e))
      → Shares limit l full hashes (share limit l full hashes)
  unfolding share
  share-Shares limit [] full hashes = record {
    chosen = sym (ap (◌++◌ full) (take-nil (limit - length full)) ∙ append-nil full);
    counted = λ j. omega arith;
    kept = λ P f g h. (f, g);
  }
  share-Shares limit (p ∷ l) full hashes =
      elim (Bool-cases (not p.useless && ltb (length full) limit)) [
        | inl fits ↦
            let rest = share-Shares limit l (full ++ p ∷ []) hashes in
            rw fits (record {
              chosen =
                  rest.chosen
                  ∙ append_assoc full (p ∷ []) _
                  ∙ ap (◌++◌ full) (
                      ap (λ k. p ∷ take (limit - k) (keep (λ q. not q.useless) l))
                        (length-append full (p ∷ []))
                      ∙ sym (take-fits limit (length full) (not p.useless) p (keep _ l) fits));
              counted = λ j. omega (arith, rest.counted j, count-snoc j full p);
              kept = λ P f g h. rest.kept P (All-snoc P full p f h.0) g h.1;
            })
        | inr leaves ↦
            let rest = share-Shares limit l full (hashes ++ p ∷ []) in
            rw leaves (record {
              chosen =
                  rest.chosen
                  ∙ ap (◌++◌ full)
                      (sym (take-leaves limit (length full) (not p.useless) p (keep _ l) leaves));
              counted = λ j. omega (arith, rest.counted j, count-snoc j hashes p);
              kept = λ P f g h. rest.kept P f (All-snoc P hashes p g h.0) h.1;
            })
      ]
