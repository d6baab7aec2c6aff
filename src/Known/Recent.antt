-- ===== src/Known/Recent.antt =====
-- What a run of additions leaves in the cache of known hashes, and for how long a hash stays.
use mathlib.Core.List.{append_assoc, append-nil}
use sonicpeer.Base.{
  ℕ, suc, ◌+◌, ◌≤◌, ◌<◌, ◌≡◌, refl, sym, ap, ◌∙◌, true, false, not, List, [], ◌∷◌, ◌++◌, some, none,
  arith, ltb, length, member, count, member-count, count-append, not-lt→ltb, member-middle, ◌==◌,
  length-append, keep, drop, Bool-cases, inl, inr,
}
use sonicpeer.Known.{HashCache, new, add, evict, add_all, contains, cardinality, filter_new}
use sonicpeer.Known.Fifo.{
  IsValid, queue, enqueue, add-enqueue, new-IsValid, member-queue, count-queue, length_queue,
}

-- The queue after a run of additions.
abbrev pub enqueue_all : ℕ → List ℕ → List ℕ → List ℕ
enqueue_all max [] q = q
enqueue_all max (h ∷ hs) q = enqueue_all max hs (enqueue max h q)

-- A run of additions to a valid cache never panics.
pub add_all-enqueue :
    (hs : List ℕ) {c : HashCache}
    → IsValid c
    → (c' : HashCache) × (add_all c hs ≡ some c')
      × IsValid c'
      × (c'.max ≡ c.max)
      × (queue c' ≡ enqueue_all c.max hs (queue c))
unfolding add_all
add_all-enqueue [] {c} v = (c, refl, v, refl, refl)
add_all-enqueue (h ∷ hs) {c} v =
    let (d, one, w, cap, front) = add-enqueue v h in
    let (e, rest, u, cap', back) = add_all-enqueue hs w in
    (e, rw one rest, u, cap' ∙ cap, back ∙ (λ i. enqueue_all (cap i) hs (front i)))

-- The hashes added to a new cache of a positive capacity never make it panic or outgrow that
-- capacity, and what it holds is what the queue holds after the same additions.
fresh-add_all :
    (max : ℕ) (hs : List ℕ)
    → 0 < max
    → (c : HashCache) × (add_all (new max) hs ≡ some c)
      × (cardinality c ≤ max)
      × ((h : ℕ) → contains c h ≡ member h (enqueue_all max hs []))
unfolding new cardinality
fresh-add_all max hs pos =
    let (c, runs, v, cap, q) = add_all-enqueue hs (new-IsValid max pos).0 in
    (c, runs, omega (arith, v.size, v.bounded), λ h. sym (member-queue v h) ∙ ap (member h) q)

-- Without capacity the first addition panics, whatever the hash.
pub add-new-zero : (h : ℕ) → add (new 0) h ≡ none
unfolding add evict new
add-new-zero h = refl

enqueue_keeps :
    (max h : ℕ) (hs pre post : List ℕ)
    → length hs + suc (length post) ≤ max
    → member h (enqueue_all max hs (pre ++ h ∷ post)) ≡ true
enqueue_keeps max h [] pre post b = member-middle pre h post
enqueue_keeps max h (x ∷ hs) pre post b = elim (Bool-cases (member x (pre ++ h ∷ post))) [
  | inl known ↦ rw known (enqueue_keeps max h hs pre post (omega arith))
  | inr absent ↦ elim (Bool-cases (ltb (length (pre ++ h ∷ post)) max)) [
    | inl room ↦
        rw (absent, room)
          (rw (append_assoc pre (h ∷ post) (x ∷ [])) (
            enqueue_keeps max h hs pre (post ++ x ∷ [])
              (omega (arith, length-append {0} post (x ∷ [])))))
    | inr full ↦ rw (absent, full) (shifted (enqueue_keeps max h hs) pre full)
  ]
]
  where
    shifted :
        (ih : (pre post : List ℕ)
          → length hs + suc (length post) ≤ max
          → member h (enqueue_all max hs (pre ++ h ∷ post)) ≡ true)
        → (pre : List ℕ) → ltb (length (pre ++ h ∷ post)) max ≡ false
        → member h (enqueue_all max hs (drop 1 (pre ++ h ∷ post) ++ x ∷ [])) ≡ true
    shifted ih [] full = absurd (ground arith)
    shifted ih (y ∷ pre) full =
        rw (append_assoc pre (h ∷ post) (x ∷ []))
          (ih pre (post ++ x ∷ []) (omega (arith, length-append {0} post (x ∷ []))))

enqueue_absent :
    (max h : ℕ) (q : List ℕ)
    → member h q ≡ false
    → (pre : List ℕ) × (enqueue max h q ≡ pre ++ h ∷ [])
enqueue_absent max h q e = elim (Bool-cases (ltb (length q) max)) [
  | inl room ↦ (q, rw (e, room))
  | inr full ↦ (drop 1 q, rw (e, full))
]

-- A hash that was not in the cache stays in it for the next `max - 1` additions.
add_all-keeps :
    (h : ℕ) (hs : List ℕ) {c : HashCache}
    → IsValid c
    → contains c h ≡ false
    → length hs < c.max
    → (c' : HashCache) × (add_all c (h ∷ hs) ≡ some c') × (contains c' h ≡ true)
add_all-keeps h hs {c} v absent b =
    let (c', runs, w, cap, q) = add_all-enqueue (h ∷ hs) v in
    let (pre, e) = enqueue_absent c.max h (queue c) (member-queue v h ∙ absent) in
    (
      c',
      runs,
      sym (member-queue w h)
          ∙ ap (member h) (q ∙ ap (enqueue_all c.max hs) e)
          ∙ enqueue_keeps c.max h hs pre [] (omega arith),
    )

-- The queue in the situation of the next theorem.
requeue :
    (max h x : ℕ) (rest : List ℕ)
    → count h (h ∷ rest) ≤ 1
    → length (h ∷ rest) ≡ max
    → member x (h ∷ rest) ≡ false
    → member h (enqueue_all max (h ∷ x ∷ []) (h ∷ rest)) ≡ false
requeue max h x rest once full absent = ground (
  arith,
  member-count h (rest ++ x ∷ []),
  count-append h rest (x ∷ []),
  not-lt→ltb (suc (length rest)) max,
)

-- Marking a hash again does not make it young: where a full cache holds `h` as its oldest hash, an
-- addition of `h` changes nothing, and one new hash after it drops `h`.
readd_evicts :
    (h x : ℕ) (rest : List ℕ) {c : HashCache}
    → IsValid c
    → queue c ≡ h ∷ rest
    → length c.keys ≡ c.max
    → contains c x ≡ false
    → (c' : HashCache) × (add_all c (h ∷ x ∷ []) ≡ some c') × (contains c' h ≡ false)
readd_evicts h x rest {c} v q full absent =
    let (c', runs, w, cap, e) = add_all-enqueue (h ∷ x ∷ []) v in
    (
      c',
      runs,
      sym (member-queue w h)
          ∙ ap (member h) (e ∙ ap (enqueue_all c.max (h ∷ x ∷ [])) q)
          ∙ requeue c.max h x rest
              (omega (arith, v.distinct h, count-queue h c.next c.keys, ap (count h) q))
              (omega (arith, length_queue v h, ap length q))
              (ap (member x) (sym q) ∙ member-queue v x ∙ absent),
    )

-- `FilterNew` appends to `dst` exactly the items whose hash is not known, in order.
filter_new-keep {ℓ} :
    {T : Type ℓ} (hash_of : T → ℕ) (c : HashCache) (ts dst : List T)
    → filter_new hash_of c ts dst ≡ dst ++ keep (λ t. not (contains c (hash_of t))) ts
unfolding filter_new
filter_new-keep hash_of c [] dst = sym (append-nil dst)
filter_new-keep hash_of c (t ∷ ts) dst = elim (Bool-cases (contains c (hash_of t))) [
  | inl e ↦ rw e (filter_new-keep hash_of c ts dst)
  | inr e ↦ rw e (filter_new-keep hash_of c ts (dst ++ t ∷ []) ∙ append_assoc dst (t ∷ []) _)
]

enqueue_other :
    (max h x : ℕ) (q : List ℕ)
    → (x == h) ≡ false
    → member h q ≡ false
    → member h (enqueue max x q) ≡ false
enqueue_other max h x q other absent = elim (Bool-cases (member x q)) [
  | inl known ↦ rw known absent
  | inr new ↦ elim (Bool-cases (ltb (length q) max)) [
    | inl room ↦ rw (new, room) (absent_snoc q absent)
    | inr full ↦ rw (new, full) (dropped q absent)
  ]
]
  where
    absent_snoc : (q : List ℕ) → member h q ≡ false → member h (q ++ x ∷ []) ≡ false
    absent_snoc [] absent = rw other refl
    absent_snoc (y ∷ q) absent = ground (arith, absent_snoc q)

    dropped : (q : List ℕ) → member h q ≡ false → member h (drop 1 q ++ x ∷ []) ≡ false
    dropped [] absent = rw other refl
    dropped (y ∷ q) absent = absent_snoc q (ground arith)

-- Additions of hashes that the cache has room for leave each new one of them in the cache.
pub enqueue_all-member :
    (max h : ℕ) (hs q : List ℕ)
    → member h q ≡ false
    → member h hs ≡ true
    → length hs ≤ max
    → member h (enqueue_all max hs q) ≡ true
enqueue_all-member max h [] q absent there few = absurd (ground arith)
enqueue_all-member max h (x ∷ hs) q absent there few = elim (Bool-cases (x == h)) [
  | inl same ↦
      let key : x ≡ h = ground (arith, same) in
      let (pre, e) = enqueue_absent max h q absent in
      ap (λ y. member h (enqueue_all max hs (enqueue max y q))) key
      ∙ ap (λ l. member h (enqueue_all max hs l)) e
      ∙ enqueue_keeps max h hs pre [] (omega arith)
  | inr other ↦
      enqueue_all-member max h hs (enqueue max x q) (enqueue_other max h x q other absent)
        (rw other at there) (omega arith)
]
