-- ===== src/Service/Ordered.antt =====
-- What reaches a subscriber.
use mathlib.Core.List.{append_assoc, append-nil, map-append}
use sonicpeer.Base.{
  ◌≡◌, refl, sym, ap, subst, ◌∙◌, ◌⊎◌, inl, inr, Bool, true, false, List, [], ◌∷◌, ◌++◌, Option,
  none, some, arith, if◌then◌else◌, ltb, length, map, Bool-cases, Option-cases, some-injective,
}
use sonicpeer.Service.{
  capacity, Feed, new_txs_hook, pump, notify, Event, hooked, pumped, notifies, happens, run,
}

List-cases {ℓ} : {A : Type ℓ} (l : List A) → (l ≡ []) ⊎ ((x : A) × (rest : List A) × (l ≡ x ∷ rest))
List-cases [] = inl refl
List-cases (x ∷ rest) = inr (x, rest, refl)

module _ {T V : Type 0} (shown : T → V) where
  -- The transaction that an event puts into the channel, if it does.
  abbrev pub fresh : Event T → Feed T V → List T
  fresh (hooked tx) f = if ltb (length f.tx_ch) capacity then tx ∷ [] else []
  fresh pumped f = []
  fresh (notifies b) f = []

  -- The transactions that the hook puts into the channel.
  pub accepted : List (Event T) → Feed T V → List T
  accepted [] f = []
  accepted (x ∷ events) f =
      fresh x f ++ (elim (happens shown x f) [ none ↦ [] | some f' ↦ accepted events f' ])

  -- What the subscriber has been notified of, and what it will be.
  abbrev pub shown_all : Feed T V → List V
  shown_all f = f.notified ++ map shown (f.sub_ch ++ f.tx_ch)

  -- The subscriber misses nothing, and gets nothing that is not new.
  abbrev Grows : Event T → Feed T V → Feed T V → Type 0
  Grows x f g =
      g.subscribed ≡ true
      → (f.subscribed ≡ true) × (shown_all g ≡ shown_all f ++ map shown (fresh x f))

  new_txs_hook-Grows : (tx : T) (f : Feed T V) → Grows (hooked tx) f (new_txs_hook tx f)
  unfolding new_txs_hook
  new_txs_hook-Grows tx f = elim (Bool-cases (ltb (length f.tx_ch) capacity)) [
    | inl room ↦ rw (room, new_txs_hook) (λ sub. (sub, simp (append_assoc, map-append)))
    | inr full ↦ rw (full, new_txs_hook) (λ sub. (sub, sym (append-nil (shown_all f))))
  ]

  -- What a round that does not wait has made of the state.
  abbrev Made : Event T → Option (Feed T V) → Feed T V → Type 0
  Made x r f = (g : Feed T V) → r ≡ some g → Grows x f g

  made :
      (x : Event T) (r : Option (Feed T V)) (f g : Feed T V) → r ≡ some g → Grows x f g → Made x r f
  made x r f g h grows g' h' = subst (λ k. Grows x f k) (some-injective (sym h ∙ h')) grows

  waits : (x : Event T) (r : Option (Feed T V)) (f : Feed T V) → r ≡ none → Made x r f
  waits x r f h g h' = absurd (ground (arith, h, h'))

  pump-Grows : (f : Feed T V) → Made pumped (pump f) f
  unfolding pump
  pump-Grows f = elim (List-cases f.tx_ch) [
    | inl empty ↦ waits pumped (pump f) f (rw (empty, pump) refl)
    | inr (tx, rest, front) ↦ elim (Bool-cases f.subscribed) [
      | inr gone ↦
          made pumped (pump f) f (record f { tx_ch = rest }) (rw (front, pump) (rw gone refl))
            (λ sub. absurd (ground (arith, gone, sub)))
      | inl on ↦ elim (Bool-cases (ltb (length f.sub_ch) capacity)) [
        | inl room ↦
            made pumped (pump f) f (record f { tx_ch = rest; sub_ch = f.sub_ch ++ tx ∷ [] })
              (rw (front, pump) (rw on (rw room refl)))
              (λ sub. (on, rw front (simp (append_assoc, append-nil))))
        | inr full ↦ waits pumped (pump f) f (rw (front, pump) (rw on (rw full refl)))
      ]
    ]
  ]

  notify-Grows : (fails : Bool) (f : Feed T V) → Made (notifies fails) (notify shown fails f) f
  unfolding notify
  notify-Grows fails f = elim (Bool-cases f.subscribed) [
    | inr gone ↦ waits (notifies fails) (notify shown fails f) f (rw (gone, notify) refl)
    | inl on ↦ elim (List-cases f.sub_ch) [
      | inl empty ↦
          waits (notifies fails) (notify shown fails f) f (rw (on, notify) (rw empty refl))
      | inr (tx, rest, front) ↦ elim (Bool-cases fails) [
        | inl error ↦
            made (notifies fails) (notify shown fails f) f
              (record f { sub_ch = rest; subscribed = false })
              (rw (on, notify) (rw front (rw error refl))) (λ sub. absurd (ground (arith, sub)))
        | inr sent ↦
            made (notifies fails) (notify shown fails f) f
              (record f {
                sub_ch = rest;
                notified = f.notified ++ shown tx ∷ [];
                subscribed = true;
              })
              (rw (on, notify)
                (rw front (
                  rw sent (
                    ap
                      (λ b. some (record f {
                        sub_ch = rest;
                        notified = f.notified ++ shown tx ∷ [];
                        subscribed = b;
                      }))
                      on))))
              (λ sub. (on, rw front (simp (append_assoc, append-nil))))
      ]
    ]
  ]

  happens-Grows : (x : Event T) (f : Feed T V) → Made x (happens shown x f) f
  unfolding happens
  happens-Grows (hooked tx) f =
      made (hooked tx) (some (new_txs_hook tx f)) f (new_txs_hook tx f) refl
        (new_txs_hook-Grows tx f)
  happens-Grows pumped f = pump-Grows f
  happens-Grows (notifies fails) f = notify-Grows fails f

  join :
      (x : Event T) (f : Feed T V) (later : List T)
      → (shown_all f ++ map shown (fresh x f)) ++ map shown later
        ≡ shown_all f ++ map shown (fresh x f ++ later)
  join x f later =
      append_assoc (shown_all f) (map shown (fresh x f)) (map shown later)
      ∙ ap (λ l. shown_all f ++ l) (sym (map-append shown (fresh x f) later))

  -- Whatever happens, in any order, as long as the subscription lasts: what the subscriber has been
  -- notified of, together with what waits in the two channels, is what it was at the start and then
  -- exactly the transactions that the hook has put into the channel, each once and in their order.
  pub run-accepted :
      (events : List (Event T)) (f g : Feed T V)
      → run shown events f ≡ some g
      → g.subscribed ≡ true
      → (f.subscribed ≡ true) × (shown_all g ≡ shown_all f ++ map shown (accepted events f))
  unfolding run accepted
  run-accepted [] f g h on =
      let same : f ≡ g = some-injective h in
      (ap (λ k. k.subscribed) same ∙ on, ap shown_all (sym same) ∙ sym (append-nil (shown_all f)))
  run-accepted (x ∷ events) f g h on = elim (Option-cases (happens shown x f)) [
    | inl stuck ↦ absurd (ground (arith, rw stuck at h))
    | inr (f', ran) ↦
        let (on', rest) = run-accepted events f' g (rw ran at h) on in
        let (on'', one) = happens-Grows x f f' ran on' in
        (
          on'',
          rw ran (
              rest
              ∙ ap (λ l. l ++ map shown (accepted events f')) one
              ∙ join x f (accepted events f')),
        )
  ]
