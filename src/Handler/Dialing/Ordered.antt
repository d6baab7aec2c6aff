-- ===== src/Handler/Dialing/Ordered.antt =====
-- The order in which the dialer is given nodes.
use mathlib.Core.List.{append_assoc, append-nil}
use sonicpeer.Base.{
  ◌+◌, ◌≤◌, ◌≡◌, refl, sym, ap, subst, ◌⊎◌, ◌∙◌, inl, inr, Bool, true, List, [], ◌∷◌, ◌++◌, Option,
  none, some, arith, if◌then◌else◌, length, length-append, Bool-cases, Option-cases, some-injective,
}
use sonicpeer.Handler.Dialing.{
  suggestion_capacity, Dialing, Event, suggests, loads, gives_up, quitting, advances, ends, closing,
  new_dialing, has_room, suggest_next, load_next, give_up, advance, end_iteration, close_iterator,
  happens, run,
}

-- A list is two others, each in its order.
pub data Interleaved {N : Type 0} : List N → List N → List N → Type 0 where
  empty : Interleaved [] [] []
  left :
      {xs ys zs : List N} (n : N)
      → Interleaved xs ys zs
      → Interleaved (xs ++ n ∷ []) ys (zs ++ n ∷ [])
  right :
      {xs ys zs : List N} (n : N)
      → Interleaved xs ys zs
      → Interleaved xs (ys ++ n ∷ []) (zs ++ n ∷ [])

module _ {N : Type 0} where
  -- The suggestion of a tick, if the channel has room for it
  abbrev pub entering : Event N → Dialing N → List N
  entering (suggests n) d = if has_room d then n ∷ [] else []
  entering _ d = []

  abbrev pub accepted : List (Event N) → Dialing N → List N
  accepted [] d = []
  accepted (x ∷ events) d =
      entering x d ++ elim (happens x d) [ none ↦ [] | some d' ↦ accepted events d' ]

  -- The channel keeps within its capacity; what the dialer has been given, with what waits in the
  -- channel, is the suggestions and the nodes of the file that were sent, each in its order. The
  -- file has then only the nodes that its goroutine has yet to send, unless the handler quits.
  pub record Ordered (nodes suggestions : List N) (d : Dialing N) : Type 0 where
    pub bounded : length d.queue ≤ suggestion_capacity
    pub sent : List N
    pub unsent : List N
    pub whole : sent ++ unsent ≡ nodes
    pub merged : Interleaved suggestions sent (d.given ++ d.queue)
    pub left_over : (d.loading ≡ unsent) ⊎ ((d.quits ≡ true) × (d.loading ≡ []))

  length-enqueued :
      (n : N) (d : Dialing N) → has_room d ≡ true → length (d.queue ++ n ∷ []) ≤ suggestion_capacity
  length-enqueued n d room =
      let less : length d.queue + 1 ≤ suggestion_capacity = ground (arith, room) in
      omega (arith, length-append {0} d.queue (n ∷ []), less)

  suggest_next-Ordered :
      (nodes suggestions : List N) (n : N) (d : Dialing N)
      → Ordered nodes suggestions d
      → Ordered nodes (suggestions ++ entering (suggests n) d) (suggest_next n d)
  unfolding suggest_next
  suggest_next-Ordered nodes suggestions n d o = elim (Bool-cases (has_room d)) [
    | inl room ↦ rw room (record {
      bounded = length-enqueued n d room;
      sent = o.sent;
      unsent = o.unsent;
      whole = o.whole;
      merged =
          subst (Interleaved (suggestions ++ n ∷ []) o.sent) (append_assoc d.given d.queue (n ∷ []))
            (left n o.merged);
      left_over = o.left_over;
    })
    | inr full ↦ rw full (rw (append-nil suggestions) o)
  ]

  reached :
      (nodes suggestions : List N) (o : Option (Dialing N)) (d d' : Dialing N)
      → o ≡ some d
      → Ordered nodes suggestions d
      → o ≡ some d'
      → Ordered nodes suggestions d'
  reached nodes suggestions o d d' h ordered h' =
      subst (Ordered nodes suggestions) (some-injective (sym h ∙ h')) ordered

  List-cases : (l : List N) → (l ≡ []) ⊎ ((n : N) × (rest : List N) × (l ≡ n ∷ rest))
  List-cases [] = inl refl
  List-cases (n ∷ rest) = inr (n, rest, refl)

  load_next-Ordered :
      (nodes suggestions : List N) (d d' : Dialing N)
      → load_next d ≡ some d'
      → Ordered nodes suggestions d
      → Ordered nodes suggestions d'
  unfolding load_next
  load_next-Ordered nodes suggestions d d' h o = elim (List-cases d.loading) [
    | inl none_left ↦ absurd (ground (arith, rw (none_left, load_next) at h))
    | inr (n, rest, some_left) ↦ elim (Bool-cases (has_room d)) [
      | inr full ↦ absurd (ground (arith, rw full at rw (some_left, load_next) at h))
      | inl room ↦
          let now : o.unsent ≡ n ∷ rest = elim o.left_over [
            | inl same ↦ sym same ∙ some_left
            | inr (quits, over) ↦ absurd (ground (arith, over, some_left))
          ] in
          reached nodes suggestions (load_next d)
            (record d { queue = d.queue ++ n ∷ []; loading = rest }) d'
            (rw (some_left, load_next) (rw room refl))
            (record {
              bounded = length-enqueued n d room;
              sent = o.sent ++ n ∷ [];
              unsent = rest;
              whole = append_assoc o.sent (n ∷ []) rest ∙ ap (λ l. o.sent ++ l) (sym now) ∙ o.whole;
              merged =
                  subst (Interleaved suggestions (o.sent ++ n ∷ []))
                    (append_assoc d.given d.queue (n ∷ [])) (right n o.merged);
              left_over = inl refl;
            })
            h
    ]
  ]

  advance-Ordered :
      (nodes suggestions : List N) (d d' : Dialing N)
      → advance d ≡ some d'
      → Ordered nodes suggestions d
      → Ordered nodes suggestions d'
  unfolding advance
  advance-Ordered nodes suggestions d d' h o = elim (List-cases d.queue) [
    | inl none_left ↦ absurd (ground (arith, rw (none_left, advance) at h))
    | inr (n, rest, some_left) ↦
        let full = subst (λ q. length q ≤ suggestion_capacity) some_left o.bounded in
        reached nodes suggestions (advance d)
          (record d { queue = rest; next = some n; given = d.given ++ n ∷ [] }) d'
          (rw (some_left, advance) refl)
          (record {
            bounded = omega (arith, full);
            sent = o.sent;
            unsent = o.unsent;
            whole = o.whole;
            merged =
                subst (Interleaved suggestions o.sent)
                  (ap (λ l. d.given ++ l) some_left ∙ sym (append_assoc d.given (n ∷ []) rest))
                  o.merged;
            left_over = o.left_over;
          })
          h
  ]

  same_nodes :
      (nodes suggestions : List N) (d : Dialing N) (loading : List N) (quits closed : Bool)
      (o : Ordered nodes suggestions d)
      → (loading ≡ o.unsent) ⊎ ((quits ≡ true) × (loading ≡ []))
      → Ordered nodes suggestions (record d { loading = loading; quits = quits; closed = closed })
  same_nodes nodes suggestions d loading quits closed o left_over = record {
    bounded = o.bounded;
    sent = o.sent;
    unsent = o.unsent;
    whole = o.whole;
    merged = o.merged;
    left_over = left_over;
  }

  happens-Ordered :
      (nodes suggestions : List N) (x : Event N) (d d' : Dialing N)
      → happens x d ≡ some d'
      → Ordered nodes suggestions d
      → Ordered nodes (suggestions ++ entering x d) d'
  unfolding happens give_up end_iteration close_iterator
  happens-Ordered nodes suggestions (suggests n) d d' h o =
      reached nodes (suggestions ++ entering (suggests n) d) (happens (suggests n) d)
        (suggest_next n d) d' refl (suggest_next-Ordered nodes suggestions n d o) h
  happens-Ordered nodes suggestions loads d d' h o =
      rw (append-nil suggestions) (load_next-Ordered nodes suggestions d d' h o)
  happens-Ordered nodes suggestions gives_up d d' h o =
      rw (append-nil suggestions) (elim (Bool-cases d.quits) [
        | inl quits ↦
            reached nodes suggestions (give_up d) (record d { loading = [] }) d'
              (rw (quits, give_up) refl)
              (same_nodes nodes suggestions d [] d.quits d.closed o (inr (quits, refl))) h
        | inr stays ↦ absurd (ground (arith, rw (stays, give_up) at h))
      ])
  happens-Ordered nodes suggestions quitting d d' h o = rw (append-nil suggestions) (
      reached nodes suggestions (happens quitting d) (record d { quits = true }) d' refl
        (same_nodes nodes suggestions d d.loading true d.closed o
          (elim o.left_over [ inl same ↦ inl same | inr (q, over) ↦ inr (refl, over) ]))
        h)
  happens-Ordered nodes suggestions advances d d' h o =
      rw (append-nil suggestions) (advance-Ordered nodes suggestions d d' h o)
  happens-Ordered nodes suggestions ends d d' h o =
      rw (append-nil suggestions) (elim (Bool-cases d.closed) [
        | inl closed ↦
            reached nodes suggestions (end_iteration d) d d' (rw (closed, end_iteration) refl) o h
        | inr not_yet ↦ absurd (ground (arith, rw (not_yet, end_iteration) at h))
      ])
  happens-Ordered nodes suggestions closing d d' h o =
      rw (append-nil suggestions) (elim (Bool-cases d.closed) [
        | inl closed ↦ absurd (ground (arith, rw (closed, close_iterator) at h))
        | inr not_yet ↦
            reached nodes suggestions (close_iterator d) (record d { closed = true }) d'
              (rw (not_yet, close_iterator) refl)
              (same_nodes nodes suggestions d d.loading d.quits true o o.left_over) h
      ])

  run-Ordered_from :
      (nodes suggestions : List N) (events : List (Event N)) (d d' : Dialing N)
      → run events d ≡ some d'
      → Ordered nodes suggestions d
      → Ordered nodes (suggestions ++ accepted events d) d'
  unfolding run
  run-Ordered_from nodes suggestions [] d d' h o =
      rw (append-nil suggestions) (reached nodes suggestions (some d) d d' refl o h)
  run-Ordered_from nodes suggestions (x ∷ events) d d' h o = elim (Option-cases (happens x d)) [
    | inl stuck ↦ absurd (ground (arith, rw stuck at h))
    | inr (d1, now) ↦
        let rest =
          run-Ordered_from nodes (suggestions ++ entering x d) events d1 d' (rw now at h)
            (happens-Ordered nodes suggestions x d d1 now o) in
        rw (now, accepted)
          (subst (λ l. Ordered nodes l d')
            (append_assoc suggestions (entering x d) (accepted events d1)) rest)
  ]

  pub run-Ordered :
      (nodes : List N) (events : List (Event N)) (d : Dialing N)
      → run events (new_dialing nodes) ≡ some d
      → Ordered nodes (accepted events (new_dialing nodes)) d
  run-Ordered nodes events d h = run-Ordered_from nodes [] events (new_dialing nodes) d h (record {
    bounded = omega arith;
    sent = [];
    unsent = nodes;
    whole = refl;
    merged = empty;
    left_over = inl refl;
  })
