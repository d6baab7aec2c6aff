-- ===== src/Sidecar/Followed.antt =====
-- What the sidecar knows of one transaction.
use sonicpeer.Base.{
  ℕ, ◌≡◌, refl, sym, ap, subst, ◌∙◌, inl, inr, Bool, true, List, [], ◌∷◌, Option, none, some, arith,
  if◌then◌else◌, ◌==◌, lookup, erase, lookup-store, lookup-erase, Distinct, store-Distinct,
  erase-Distinct, Bool-cases, Option-cases,
}
use sonicpeer.Sidecar.{
  Arrival, Tracker, same_kind, record_arrival, is_stale, orphaned, clean_up, heartbeat, Call,
  arrival, beat, step, run,
}

-- The same for one transaction alone: the first announcement that waits for one of the other kind.
abbrev pub follow_arrival : Bool → ℕ → Option Arrival → Option Arrival
follow_arrival is_sonic now none = some (record { ts = now; is_sonic = is_sonic })
follow_arrival is_sonic now (some first) =
    if same_kind first.is_sonic is_sonic then some first else none

abbrev pub follow_beat : ℕ → Option Arrival → Option Arrival
follow_beat now none = none
follow_beat now (some first) = if is_stale now first then none else some first

pub follow : ℕ → List Call → Option Arrival → Option Arrival
follow h [] o = o
follow h (arrival hash is_sonic now ∷ calls) o =
    follow h calls (if hash == h then follow_arrival is_sonic now o else o)
follow h (beat now sentry standard ∷ calls) o = follow h calls (follow_beat now o)

record_arrival-follows :
    (hash : ℕ) (is_sonic : Bool) (now : ℕ) (t : Tracker) (h : ℕ)
    → Distinct t.seen
    → Distinct (record_arrival hash is_sonic now t).seen
      × (lookup h (record_arrival hash is_sonic now t).seen
          ≡ (if hash == h then follow_arrival is_sonic now (lookup h t.seen) else lookup h t.seen))
unfolding record_arrival
record_arrival-follows hash is_sonic now t h dist = elim (Option-cases (lookup hash t.seen)) [
  | inl new ↦
      let a : Arrival = record { ts = now; is_sonic = is_sonic } in
      rw (new, record_arrival)
        (
          store-Distinct hash a t.seen dist,
          lookup-store hash h a t.seen ∙ (elim (Bool-cases (hash == h)) [
            | inl own ↦
                let free : lookup h t.seen ≡ none =
                  subst (λ k. lookup k t.seen ≡ none) (key own) new in
                rw own (rw free refl)
            | inr other ↦ rw other refl
          ]),
        )
  | inr (first, known) ↦
      let here : (hash == h) ≡ true → lookup h t.seen ≡ some first =
        λ own. subst (λ k. lookup k t.seen ≡ some first) (key own) known in
      elim (Bool-cases (same_kind first.is_sonic is_sonic)) [
        | inl same ↦
            rw (known, record_arrival)
              (rw same (
                dist,
                (elim (Bool-cases (hash == h)) [
                  | inl own ↦ rw own (rw (here own) (rw same refl))
                  | inr other ↦ rw other refl
                ]),
              ))
        | inr differs ↦
            rw (known, record_arrival)
              (rw differs (
                erase-Distinct hash t.seen dist,
                lookup-erase hash h t.seen dist ∙ (elim (Bool-cases (hash == h)) [
                  | inl own ↦ rw own (rw (here own) (rw differs refl))
                  | inr other ↦ rw other refl
                ]),
              ))
      ]
]
  where
    key : (hash == h) ≡ true → hash ≡ h
    key own = ground arith

abbrev or_stale : ℕ → Option Arrival → Option Arrival → Option Arrival
or_stale now none o = o
or_stale now (some a) o = if is_stale now a then none else o

orphaned-seen :
    (hash : ℕ) (a : Arrival) (t : Tracker) → (orphaned hash a t).seen ≡ erase hash t.seen
orphaned-seen hash a t = ground arith

clean_up-follows :
    (now : ℕ) (entries : List (ℕ × Arrival)) (t : Tracker) (h : ℕ)
    → Distinct entries
    → Distinct t.seen
    → Distinct (clean_up now entries t).seen
      × (lookup h (clean_up now entries t).seen ≡ or_stale now (lookup h entries) (lookup h t.seen))
unfolding clean_up
clean_up-follows now [] t h d dist = (dist, refl)
clean_up-follows now ((k, a) ∷ entries) t h d dist = elim (Bool-cases (is_stale now a)) [
  | inr fresh ↦
      let (dist', rest) = clean_up-follows now entries t h d.1 dist in
      rw (fresh, clean_up)
        (
          dist',
          rest ∙ (elim (Bool-cases (k == h)) [
            | inl own ↦
                let free : lookup h entries ≡ none = ground (arith, d.0) in
                rw own (rw free (rw fresh refl))
            | inr other ↦ rw other refl
          ]),
        )
  | inl old ↦
      let erased = orphaned-seen k a t in
      let dist1 : Distinct (orphaned k a t).seen =
        subst (λ m. Distinct m) (sym erased) (erase-Distinct k t.seen dist) in
      let (dist', rest) = clean_up-follows now entries (orphaned k a t) h d.1 dist1 in
      let now_there : lookup h (orphaned k a t).seen ≡ (if k == h then none else lookup h t.seen) =
        ap (lookup h) erased ∙ lookup-erase k h t.seen dist in
      rw (old, clean_up)
        (
          dist',
          rest ∙ ap (or_stale now (lookup h entries)) now_there ∙ (elim (Bool-cases (k == h)) [
            | inl own ↦
                let free : lookup h entries ≡ none = ground (arith, d.0) in
                rw own (rw free (rw old refl))
            | inr other ↦ rw other refl
          ]),
        )
]

pub step-follows :
    (c : Call) (t : Tracker) (h : ℕ)
    → Distinct t.seen
    → Distinct (step c t).seen × (lookup h (step c t).seen ≡ follow h (c ∷ []) (lookup h t.seen))
unfolding step follow heartbeat
step-follows (arrival hash is_sonic now) t h dist =
    record_arrival-follows hash is_sonic now t h dist
step-follows (beat now sentry standard) t h dist =
    let (dist', found) = clean_up-follows now t.seen t h dist dist in
    (dist', found ∙ same (lookup h t.seen))
  where
    same : (o : Option Arrival) → or_stale now o o ≡ follow_beat now o
    same none = refl
    same (some a) = refl

follow-cons :
    (h : ℕ) (c : Call) (calls : List Call) (o : Option Arrival)
    → follow h (c ∷ calls) o ≡ follow h calls (follow h (c ∷ []) o)
unfolding follow
follow-cons h (arrival hash is_sonic now) calls o = refl
follow-cons h (beat now sentry standard) calls o = refl

-- The transactions do not disturb each other: whatever is announced and whenever the sidecar cleans up,
-- what it waits for under a hash depends on the announcements of that hash and on the clean-ups alone:
-- the first announcement waits until one of the other kind comes, or until it is stale.
pub run-follows :
    (calls : List Call) (t : Tracker) (h : ℕ)
    → Distinct t.seen
    → Distinct (run calls t).seen × (lookup h (run calls t).seen ≡ follow h calls (lookup h t.seen))
unfolding run follow
run-follows [] t h dist = (dist, refl)
run-follows (c ∷ calls) t h dist =
    let (dist', found) = step-follows c t h dist in
    let (dist'', rest) = run-follows calls (step c t) h dist' in
    (dist'', rest ∙ ap (follow h calls) found ∙ sym (follow-cons h c calls (lookup h t.seen)))
