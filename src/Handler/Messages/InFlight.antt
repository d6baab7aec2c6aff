-- ===== src/Handler/Messages/InFlight.antt =====
-- pkg/gossip/handler.go: the messages of several peers that are handled at the same time, which share
-- the semaphore of the handler: handleMsg acquires it before the `switch` and releases it when it
-- returns. The steps of the calls interleave in any order.
pub mod Bounded
use sonicpeer.Base.{
  ℕ, zero, suc, ◌+◌, ◌≤◌, ◌≡◌, ◌⊎◌, refl, inl, inr, List, [], ◌∷◌, Option, none, some,
  if◌then◌else◌, ltb, get_elem?, length, Bool-cases, Option-cases,
}
use sonicpeer.Env.{Env, Metric, Makers, Read, failed, received}
use sonicpeer.Known.Fifo.{IsValid}
use sonicpeer.Protocol.{Error}
use sonicpeer.Peer.{Peer}
use sonicpeer.Handler.{Handler}
use sonicpeer.Handler.Messages.{handle_msg, message_weight}
use sonicpeer.Handler.Messages.Released.{dispatch-Handled}

-- The semaphore, and the sizes of the messages that are being handled.
pub record Shared (e : Env) : Type 0 where
  pub semaphore : e.Semaphore
  pub in_flight : List ℕ

-- A message that has been read comes to the semaphore, or the call that handles a message returns.
pub data Turn : Type 0 where
  enters : (size : ℕ) → Turn
  leaves : (i : ℕ) → Turn

-- The list without its element at the index
abbrev pub remove_at : List ℕ → ℕ → List ℕ
remove_at [] i = []
remove_at (x ∷ xs) zero = xs
remove_at (x ∷ xs) (suc i) = x ∷ remove_at xs i

abbrev pub total : List ℕ → ℕ
total [] = 0
total (x ∷ xs) = x + total xs

module _ (e : Env) where
  -- The steps of `handleMsg` before and after its `switch`, as far as they concern the semaphore
  unfoldable pub turn : Turn → Shared e → Shared e
  turn (enters size) s =
      if ltb e.max_msg_size size
      then s
      else elim (e.try_acquire s.semaphore (message_weight size)) [
        | none ↦ s
        | some t ↦ record { semaphore = t; in_flight = size ∷ s.in_flight }
      ]
  turn (leaves i) s = elim (get_elem? s.in_flight i) [
    | none ↦ s
    | some size ↦ record {
      semaphore = e.release s.semaphore (message_weight size);
      in_flight = remove_at s.in_flight i;
    }
  ]

  unfoldable pub run : List Turn → Shared e → Shared e
  unfolding turn
  run [] s = s
  run (t ∷ ts) s = run ts (turn t s)

module _ {e : Env} where
  -- The semaphore of a new handler, while no message is being handled
  abbrev pub idle : Makers e → Metric → Shared e
  idle makers limit = record { semaphore = makers.new_semaphore limit; in_flight = [] }

  -- Room for one more message: no other is being handled, or both limits allow it.
  abbrev pub Room : Metric → Shared e → ℕ → Type 0
  Room limit s size =
      (s.in_flight ≡ [])
      ⊎ ((length s.in_flight + 1 ≤ limit.num) × (total s.in_flight + size ≤ limit.size))

  -- The steps of one call, if no other call comes between them
  abbrev steps : Read e → List Turn
  steps (failed x) = []
  steps (received code size body) = enters size ∷ leaves 0 ∷ []

  -- One call of handleMsg that no other overlaps, on a handler that handles no other message: it does
  -- with the semaphore what the two steps of the message do, on every message, from a peer whose
  -- marks are valid.
  handle_msg-steps :
      (now later : ℕ) (r : Read e) (h : Handler e) (p : Peer e)
      → IsValid p.known_txs
      → (h' : Handler e) × (p' : Peer e) × (hooked : List e.Tx) × (err : Option Error) × (handle_msg
            now later r h p
          ≡ some (h', p', hooked, err))
        × (run e (steps r) (record { semaphore = h.msg_semaphore; in_flight = [] })
            ≡ record { semaphore = h'.msg_semaphore; in_flight = [] })
  unfolding handle_msg run turn
  handle_msg-steps now later (failed x) h p valid =
      (h, p, [], some (Error.read_failed x), refl, refl)
  handle_msg-steps now later (received code size body) h p valid =
      elim (Bool-cases (ltb e.max_msg_size size)) [
        | inl large ↦ (h, p, [], some Error.msg_too_large, rw large refl, rw large refl)
        | inr fits ↦ elim (Option-cases (e.try_acquire h.msg_semaphore (message_weight size))) [
          | inl refused ↦ (h, p, [], none, rw fits (rw refused refl), rw fits (rw refused refl))
          | inr (s, granted) ↦
              let d =
                dispatch-Handled (record h { msg_semaphore = s }) p valid now later code body in
              (
                record d.handler {
                  msg_semaphore = e.release d.handler.msg_semaphore (message_weight size);
                },
                d.peer,
                d.hooked,
                d.error,
                rw fits (rw granted (rw d.runs refl)),
                rw fits (rw granted (rw d.kept refl)),
              )
        ]
      ]
