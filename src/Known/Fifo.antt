-- ===== src/Known/Fifo.antt =====
-- The cache of known hashes refines a bounded first-in-first-out queue without repetition.
use sonicpeer.Base.{
  ℕ, suc, ◌+◌, ◌%◌, ◌≤◌, ◌<◌, ◌≡◌, refl, sym, ap, ◌∙◌, true, false, List, [], ◌∷◌, ◌++◌, some,
  arith, if◌then◌else◌, ltb, length, get_elem?, set, take, drop, member, delete, count, Bool-cases,
  lt→ltb, not-lt→ltb, inl, inr, length-append, length-set, drop_all, take_all, drop-get_elem?,
  take-append-drop, take-set, drop-set, count-append, member-count, not-member-count,
  not-member-delete, count-delete, length-delete, count-set, count_at,
}
use sonicpeer.Known.{HashCache, new, add, evict, contains}
use mathlib.Core.Path.{ap₂}
use native.Mathlib.Nat.{mod_self}
use mathlib.Core.List.{append-nil, append_assoc}

-- The hashes of the cache, the oldest first.
abbrev pub queue : HashCache → List ℕ
queue c = drop c.next c.keys ++ take c.next c.keys

-- The ring and the set hold the same hashes, each once; the ring turns only when it is full.
pub record IsValid (c : HashCache) : Type 0 where
  pub room : c.next < c.max
  pub bounded : length c.keys ≤ c.max
  pub filling : length c.keys < c.max → c.next ≡ 0
  pub same : (a : ℕ) → count a c.items ≡ count a c.keys
  pub distinct : (a : ℕ) → count a c.keys ≤ 1
  pub size : length c.items ≡ length c.keys

-- The queue after one hash more.
abbrev pub enqueue : ℕ → ℕ → List ℕ → List ℕ
enqueue max h q =
    if member h q then q else if ltb (length q) max then q ++ h ∷ [] else drop 1 q ++ h ∷ []

pub count-queue : (a n : ℕ) (xs : List ℕ) → count a (drop n xs ++ take n xs) ≡ count a xs
count-queue a n xs = omega (
  arith,
  count-append a (drop n xs) (take n xs),
  count-append a (take n xs) (drop n xs),
  ap (count a) (take-append-drop n xs),
)

length-queue : (n : ℕ) (xs : List ℕ) → length (drop n xs ++ take n xs) ≡ length xs
length-queue n xs = omega (
  arith,
  length-append {0} (drop n xs) (take n xs),
  length-append {0} (take n xs) (drop n xs),
  ap length (take-append-drop n xs),
)

-- Membership depends on multiplicities alone.
member_of_count : (a : ℕ) (xs ys : List ℕ) → count a xs ≡ count a ys → member a xs ≡ member a ys
member_of_count a xs ys h =
    ground
      (arith, member-count a xs, member-count a ys, not-member-count a xs, not-member-count a ys)

-- Overwriting the oldest slot of a full ring and moving its start by one.
ring_turn :
    (xs : List ℕ) (n max h : ℕ)
    → n < max
    → length xs ≡ max
    → drop ((n + 1) % max) (set xs n h) ++ take ((n + 1) % max) (set xs n h)
      ≡ drop (suc n) xs ++ (take n xs ++ h ∷ [])
ring_turn xs n max h below full = elim (Bool-cases (ltb (n + 1) max)) [
  | inl inside ↦
      let e : (n + 1) % max ≡ suc n = grind arith in
      rw e (ap₂ ◌++◌ (drop-set xs n h) (take-set xs n h (omega arith)))
  | inr wraps ↦
      let last : n + 1 ≡ max = ground arith in
      let e : (n + 1) % max ≡ 0 = rw last (mod_self max) in
      rw e (
        append-nil (set xs n h)
        ∙ sym (take_all (suc n) (set xs n h) (omega (arith, length-set {0} xs n h)))
        ∙ take-set xs n h (omega arith)
        ∙ rw (drop_all (suc n) xs (ground arith)))
]

module _ {c : HashCache} (v : IsValid c) (h : ℕ) where
  pub member-queue : member h (queue c) ≡ contains c h
  unfolding contains
  member-queue = member_of_count h (queue c) c.items (count-queue h c.next c.keys ∙ sym (v.same h))

  count_absent : member h c.items ≡ false → (count h c.items ≡ 0) × (count h c.keys ≡ 0)
  count_absent e = omega (arith, not-member-count h c.items e, v.same h)

  -- What `Add` does while the ring still fills.
  grow : HashCache
  grow = record c { items = h ∷ c.items; keys = c.keys ++ h ∷ [] }

  grow-IsValid : member h c.items ≡ false → length c.keys < c.max → IsValid grow
  unfolding grow
  grow-IsValid e l = record {
    room = v.room;
    bounded = omega (arith, length-append {0} c.keys (h ∷ []));
    filling = λ _. v.filling l;
    same = λ a. ground (arith, count-append a c.keys (h ∷ []), v.same a);
    distinct = λ a. ground (arith, count-append a c.keys (h ∷ []), v.distinct a, count_absent e);
    size = omega (arith, length-append {0} c.keys (h ∷ []), v.size);
  }

  grow-queue : length c.keys < c.max → queue grow ≡ queue c ++ h ∷ []
  unfolding grow
  grow-queue l = rw (v.filling l) (rw (append-nil, append-nil))

  -- What `Add` does once the ring is full.
  turn : ℕ → HashCache
  turn old = record c {
    items = h ∷ delete old c.items;
    keys = set c.keys c.next h;
    next = (c.next + 1) % c.max;
  }

  module _ (full : length c.keys ≡ c.max) where
    -- The slot that `Add` overwrites holds the oldest hash.
    oldest :
        (x : ℕ) × (get_elem? c.keys c.next ≡ some x)
        × (drop c.next c.keys ≡ x ∷ drop (suc c.next) c.keys)
    oldest = drop-get_elem? c.keys c.next (omega (arith, v.room))

    module _ {old : ℕ} (read : get_elem? c.keys c.next ≡ some old) where
      old_member : member old c.items ≡ true
      old_member =
          ground (arith, count_at c.next old c.keys read, v.same old, not-member-count old c.items)

      turn-IsValid : member h c.items ≡ false → IsValid (turn old)
      unfolding turn
      turn-IsValid e = record {
        room = omega (arith, v.room);
        bounded = omega (arith, length-set {0} c.keys c.next h);
        filling = λ l. absurd (omega (arith, length-set {0} c.keys c.next h));
        same = λ a. ground (
          arith,
          count-set a c.next h old c.keys read,
          v.same a,
          count-delete a old c.items old_member,
        );
        distinct =
            λ a. ground (arith, count-set a c.next h old c.keys read, v.distinct a, count_absent e);
        size =
            omega
              (arith, length-set {0} c.keys c.next h, v.size, length-delete old c.items old_member);
      }

      -- The ring of the turned cache, read from its new start.
      turn-queue : queue (turn old) ≡ drop (suc c.next) c.keys ++ (take c.next c.keys ++ h ∷ [])
      unfolding turn
      turn-queue = ring_turn c.keys c.next c.max h v.room full

      -- The first hash of the queue is the one overwritten.
      queue-old : queue c ≡ old ∷ drop (suc c.next) c.keys ++ take c.next c.keys
      queue-old =
          let (x, at_x, splits) = oldest in
          rw splits (ap (λ y. y ∷ drop (suc c.next) c.keys ++ take c.next c.keys) (ground arith))

  pub length_queue : length (queue c) ≡ length c.keys
  length_queue = length-queue c.next c.keys

  enqueue_known : member h c.items ≡ true → queue c ≡ enqueue c.max h (queue c)
  unfolding contains
  enqueue_known e = rw (member-queue, e)

  enqueue_room :
      member h c.items ≡ false → length c.keys < c.max → queue grow ≡ enqueue c.max h (queue c)
  unfolding contains
  enqueue_room e l = rw (member-queue, e, length_queue, lt→ltb _ _ l) (grow-queue l)

  enqueue_full :
      member h c.items ≡ false
      → length c.keys ≡ c.max
      → (old : ℕ) → get_elem? c.keys c.next ≡ some old
      → queue (turn old) ≡ enqueue c.max h (queue c)
  unfolding contains
  enqueue_full e full old read =
      rw (member-queue, e, length_queue, not-lt→ltb (length c.keys) c.max (omega arith))
        (rw (queue-old full read)
          (turn-queue full read ∙ sym (append_assoc (drop (suc c.next) c.keys) _ _)))

  add_full :
      member h c.items ≡ false
      → length c.keys ≡ c.max
      → (old : ℕ) × (get_elem? c.keys c.next ≡ some old) × (add c h ≡ some (turn old))
  unfolding add evict turn
  add_full absent full =
      let (old, read, _) = oldest full in
      (
        old,
        read,
        rw (absent, not-lt→ltb (length c.keys) c.max (omega arith), read)
            (rw (not-member-delete h old c.items absent)),
      )

  abbrev Enqueued : HashCache → Type 0
  Enqueued c' =
      (add c h ≡ some c') × IsValid c' × (c'.max ≡ c.max) × (queue c' ≡ enqueue c.max h (queue c))

  turned :
      (absent : member h c.items ≡ false) (full : length c.keys ≡ c.max)
      → (c' : HashCache) × Enqueued c'
  unfolding turn
  turned absent full =
      let (old, read, done) = add_full absent full in
      (turn old, (done, turn-IsValid full read absent, refl, enqueue_full absent full old read))

  grown :
      (absent : member h c.items ≡ false) (room : ltb (length c.keys) c.max ≡ true)
      → (c' : HashCache) × Enqueued c'
  unfolding add grow
  grown absent room =
      let l : length c.keys < c.max = ground arith in
      (grow, (rw absent (rw room), grow-IsValid absent l, refl, enqueue_room absent l))

  -- `Add` on a valid cache does not panic and keeps the cache valid; on the queue it appends the
  -- hash if it is new, and drops the oldest one only if the cache is full.
  pub add-enqueue :
      (c' : HashCache) × (add c h ≡ some c')
      × IsValid c'
      × (c'.max ≡ c.max)
      × (queue c' ≡ enqueue c.max h (queue c))
  unfolding add
  add-enqueue = elim (Bool-cases (member h c.items)) [
    | inl known ↦ (c, rw known, v, refl, enqueue_known known)
    | inr absent ↦ elim (Bool-cases (ltb (length c.keys) c.max)) [
      | inl room ↦ let (c', e) = grown absent room in (c', e.0, e.1, e.2, e.3)
      | inr full ↦
          let (c', e) = turned absent (ground (arith, v.bounded)) in (c', e.0, e.1, e.2, e.3)
    ]
  ]

-- A new cache is valid and empty.
pub new-IsValid : (max : ℕ) → 0 < max → IsValid (new max) × (queue (new max) ≡ [])
unfolding new
new-IsValid max h = (
  record {
    room = h;
    bounded = omega arith;
    filling = λ _. refl;
    same = λ a. refl;
    distinct = λ a. omega arith;
    size = refl;
  },
  refl,
)
