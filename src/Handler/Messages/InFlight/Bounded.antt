-- ===== src/Handler/Messages/InFlight/Bounded.antt =====
-- The messages in flight keep within the limits of the semaphore, and are dropped for want of room
-- alone.
use sonicpeer.Base.{
  ℕ, zero, suc, ◌+◌, ◌≤◌, ◌≡◌, refl, sym, ◌∙◌, inl, inr, false, List, [], ◌∷◌, none, some, arith,
  ltb, All, get_elem?, length, Bool-cases, Option-cases,
}
use sonicpeer.Env.{Env, Metric, SemaphoreLaws, Makers, LimitLaws, MakersLaws}
use sonicpeer.Config.{Config, validate}
use sonicpeer.Handler.Messages.{message_weight}
use sonicpeer.Handler.Messages.InFlight.{
  Shared, Turn, enters, leaves, remove_at, total, turn, run, idle, Room,
}

length-remove_at :
    (l : List ℕ) (i x : ℕ) → get_elem? l i ≡ some x → length (remove_at l i) + 1 ≡ length l
length-remove_at [] i x h = ground (arith, h)
length-remove_at (y ∷ l) zero x h = omega arith
length-remove_at (y ∷ l) (suc i) x h = let same = length-remove_at l i x h in omega (arith, same)

total-remove_at :
    (l : List ℕ) (i x : ℕ) → get_elem? l i ≡ some x → total (remove_at l i) + x ≡ total l
total-remove_at [] i x h = ground (arith, h)
total-remove_at (y ∷ l) zero x h = ground (arith, h)
total-remove_at (y ∷ l) (suc i) x h = let same = total-remove_at l i x h in omega (arith, same)

total-get_elem? : (l : List ℕ) (i x : ℕ) → get_elem? l i ≡ some x → 1 ≤ length l × x ≤ total l
total-get_elem? l i x h =
    (omega (arith, length-remove_at l i x h), omega (arith, total-remove_at l i x h))

All-remove_at : (P : ℕ → Type 0) (l : List ℕ) (i : ℕ) → All P l → All P (remove_at l i)
All-remove_at P [] i all = tt
All-remove_at P (x ∷ l) zero all = all.1
All-remove_at P (x ∷ l) (suc i) all = (all.0, All-remove_at P l i all.1)

module _ {e : Env} {laws : SemaphoreLaws e} (makers : Makers e)
    (limits : LimitLaws e laws makers) where
  -- The semaphore holds one message for each call and the bytes of all of them, and keeps within its
  -- limit, which is that of the configuration; each of the messages is within the size limit.
  pub record Within (limit : Metric) (s : Shared e) : Type 0 where
    pub same_limit : limits.limit s.semaphore ≡ limit
    pub held_num : (laws.held s.semaphore).num ≡ length s.in_flight
    pub held_size : (laws.held s.semaphore).size ≡ total s.in_flight
    pub few : length s.in_flight ≤ limit.num
    pub small : total s.in_flight ≤ limit.size
    pub each_small : All (λ size. size ≤ e.max_msg_size) s.in_flight

  module _ (limit : Metric) where
    enters-Within :
        (size : ℕ) (s : Shared e) → Within limit s → Within limit (turn e (enters size) s)
    unfolding turn
    enters-Within size s w = elim (Bool-cases (ltb e.max_msg_size size)) [
      | inl large ↦ rw large w
      | inr fits ↦ elim (Option-cases (e.try_acquire s.semaphore (message_weight size))) [
        | inl refused ↦ rw fits (rw refused w)
        | inr (t, granted) ↦
            let grown = laws.held-try_acquire s.semaphore t (message_weight size) granted in
            let bounded = limits.within s.semaphore t (message_weight size) granted in
            let bounded_num : (laws.held t).num ≤ limit.num = rw (sym w.same_limit) bounded.0 in
            let bounded_size : (laws.held t).size ≤ limit.size = rw (sym w.same_limit) bounded.1 in
            rw fits (
              rw granted (record {
                same_limit =
                    limits.limit-try_acquire s.semaphore t (message_weight size) granted
                    ∙ w.same_limit;
                held_num = omega (arith, grown.0, w.held_num);
                held_size = omega (arith, grown.1, w.held_size);
                few = omega (arith, grown.0, w.held_num, bounded_num);
                small = omega (arith, grown.1, w.held_size, bounded_size);
                each_small = (ground (arith, fits), w.each_small);
              }))
      ]
    ]

    leaves-Within : (i : ℕ) (s : Shared e) → Within limit s → Within limit (turn e (leaves i) s)
    unfolding turn
    leaves-Within i s w = elim (Option-cases (get_elem? s.in_flight i)) [
      | inl missing ↦ rw (missing, turn) w
      | inr (size, has) ↦
          let fewer = length-remove_at s.in_flight i size has in
          let less = total-remove_at s.in_flight i size has in
          let shrunk =
            laws.held-release s.semaphore (message_weight size) (omega (arith, fewer, w.held_num))
              (omega (arith, less, w.held_size)) in
          rw (has, turn)
            (record {
              same_limit = limits.limit-release s.semaphore (message_weight size) ∙ w.same_limit;
              held_num = omega (arith, shrunk.0, fewer, w.held_num);
              held_size = omega (arith, shrunk.1, less, w.held_size);
              few = omega (arith, fewer, w.few);
              small = omega (arith, less, w.small);
              each_small = All-remove_at _ s.in_flight i w.each_small;
            })
    ]

    run-Within : (ts : List Turn) (s : Shared e) → Within limit s → Within limit (run e ts s)
    unfolding run
    run-Within [] s w = w
    run-Within (enters size ∷ ts) s w = run-Within ts _ (enters-Within size s w)
    run-Within (leaves i ∷ ts) s w = run-Within ts _ (leaves-Within i s w)

  module _ (ready : MakersLaws e laws makers) where
    idle-Within : (limit : Metric) (ts : List Turn) → Within limit (run e ts (idle makers limit))
    idle-Within limit ts =
        let (zero_num, zero_size) = ready.held-new_semaphore limit in
        run-Within limit ts (idle makers limit) (record {
          same_limit = limits.limit-new_semaphore limit;
          held_num = zero_num;
          held_size = zero_size;
          few = omega arith;
          small = omega arith;
          each_small = tt;
        })

    -- Whatever the calls of handleMsg and the order of their steps, on the semaphore of a new
    -- handler: it never holds more than its limit, nor more messages and bytes than those of the
    -- calls that have not returned, so that nothing is leaked: it holds nothing when all have
    -- returned. Each of their messages is within the size limit.
    pub run-InFlight :
        (limit : Metric) (ts : List Turn)
        → let s = run e ts (idle makers limit) in
          let held = laws.held s.semaphore in
          (held.num ≤ limit.num)
          × (held.size ≤ limit.size)
          × (held.num ≤ length s.in_flight)
          × (held.size ≤ total s.in_flight)
          × All (λ size. size ≤ e.max_msg_size) s.in_flight
    run-InFlight limit ts =
        let w = idle-Within limit ts in
        (
          omega (arith, w.held_num, w.few),
          omega (arith, w.held_size, w.small),
          omega (arith, w.held_num),
          omega (arith, w.held_size),
          w.each_small,
        )

    granted-Room :
        (c : Config) (s : Shared e) (size : ℕ)
        → Within c.protocol.msgs_semaphore_limit s
        → validate e c ≡ none
        → 1 ≤ c.protocol.msgs_semaphore_limit.num
        → size ≤ e.max_msg_size
        → Room c.protocol.msgs_semaphore_limit s size
        → (t : e.Semaphore) × (e.try_acquire s.semaphore (message_weight size) ≡ some t)
    unfolding validate
    granted-Room c s size w valid some' fits room =
        let limit = c.protocol.msgs_semaphore_limit in
        let valid' : e.max_msg_size ≤ limit.size = ground (arith, valid) in
        let space : (length s.in_flight + 1 ≤ limit.num) × (total s.in_flight + size ≤ limit.size) =
          elim room [
            | inl empty ↦ rw empty (omega (arith, some'), omega (arith, valid', fits))
            | inr both ↦ both
          ] in
        limits.granted s.semaphore (message_weight size)
          (rw w.same_limit (omega (arith, space.0, w.held_num)))
          (rw w.same_limit (omega (arith, space.1, w.held_size)))

    -- In a handler whose configuration Validate accepts and whose semaphore admits one message at
    -- least, whatever has come and gone before: a message within the size limit is dropped only for
    -- want of room, that is, it enters the `switch` if no other message is being handled, or if it
    -- and those that are fit the limits together.
    pub enters-granted :
        (c : Config) (ts : List Turn) (size : ℕ)
        → validate e c ≡ none
        → 1 ≤ c.protocol.msgs_semaphore_limit.num
        → size ≤ e.max_msg_size
        → Room c.protocol.msgs_semaphore_limit
            (run e ts (idle makers c.protocol.msgs_semaphore_limit))
            size
        → (turn e (enters size) (run e ts (idle makers c.protocol.msgs_semaphore_limit))).in_flight
          ≡ size ∷ (run e ts (idle makers c.protocol.msgs_semaphore_limit)).in_flight
    unfolding turn
    enters-granted c ts size valid some' fits room =
        let limit = c.protocol.msgs_semaphore_limit in
        let within_size : ltb e.max_msg_size size ≡ false = ground (arith, fits) in
        let (t, granted) =
          granted-Room c (run e ts (idle makers limit)) size (idle-Within limit ts) valid some' fits
            room in
        rw within_size (rw granted refl)
