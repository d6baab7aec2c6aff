-- ===== src/Service.antt =====
-- pkg/gossip/service.go and pkg/gossip/api.go: the way of a transaction from the hook of the handler to a
-- subscriber of the RPC server. `T` is the type of transactions, and `shown` what a subscriber gets of
-- one: its hash from NewPendingTransactions, the whole of it from NewFullPendingTransactions. The
-- channels, the goroutine that Start spawns and the goroutine of the subscription are steps of one
-- state; event.Feed delivers a value to the channel of the subscriber, and blocks while that is full.
pub mod Ordered
pub mod Delivered
pub mod Creation
mod Tests
use sonicpeer.Base.{
  ℕ, Bool, true, false, List, [], ◌∷◌, ◌++◌, Option, none, some, if◌then◌else◌, ltb, length, ◌>>=◌,
  map,
}
use sonicpeer.Protocol.{protocol_versions, protocol_lengths}

-- The capacity of both channels
abbrev pub capacity : ℕ
capacity = 16384

-- `txCh`, the channel of the subscriber, what the subscriber has been notified of, and whether its
-- goroutine still runs.
pub record Feed (T V : Type 0) : Type 0 where
  pub tx_ch : List T
  pub sub_ch : List T
  pub notified : List V
  pub subscribed : Bool

-- A subscriber that comes while `txCh` has transactions
abbrev pub new_feed : {T V : Type 0} → List T → Feed T V
new_feed tx_ch = record { tx_ch = tx_ch; sub_ch = []; notified = []; subscribed = true }

module _ {T V : Type 0} where
  -- `newTxsHook`
  unfoldable pub new_txs_hook : T → Feed T V → Feed T V
  new_txs_hook tx f =
      if ltb (length f.tx_ch) capacity then record f { tx_ch = f.tx_ch ++ tx ∷ [] } else f

  -- A round of the goroutine of Start, `none` while it waits
  unfoldable pub pump : Feed T V → Option (Feed T V)
  pump f = elim f.tx_ch [
    | [] ↦ none
    | tx ∷ rest ↦
        if f.subscribed
        then if ltb (length f.sub_ch) capacity
          then some (record f { tx_ch = rest; sub_ch = f.sub_ch ++ tx ∷ [] })
          else none
        else some (record f { tx_ch = rest })
  ]

  -- A round of the goroutine of a subscription, where `fails` says whether Notify does
  unfoldable pub notify : (T → V) → Bool → Feed T V → Option (Feed T V)
  notify shown fails f =
      if f.subscribed
      then elim f.sub_ch [
        | [] ↦ none
        | tx ∷ rest ↦
            if fails
            then some (record f { sub_ch = rest; subscribed = false })
            else some (record f { sub_ch = rest; notified = f.notified ++ shown tx ∷ [] })
      ]
      else none

-- What happens next.
pub data Event (T : Type 0) : Type 0 where
  hooked : T → Event T
  pumped : Event T
  notifies : Bool → Event T

module _ {T V : Type 0} (shown : T → V) where
  unfoldable pub happens : Event T → Feed T V → Option (Feed T V)
  unfolding new_txs_hook pump notify
  happens (hooked tx) f = some (new_txs_hook tx f)
  happens pumped f = pump f
  happens (notifies fails) f = notify shown fails f

  -- `none`: one of the events cannot happen then.
  unfoldable pub run : List (Event T) → Feed T V → Option (Feed T V)
  unfolding happens
  run [] f = some f
  run (x ∷ events) f = do f' ← happens x f; run events f'

-- A protocol as MakeProtocols registers it.
pub record Protocol : Type 0 where
  pub version : ℕ
  pub messages : ℕ

-- `MakeProtocols`, less the callbacks
unfoldable pub make_protocols : List Protocol
make_protocols = map (λ v. record { version = v; messages = protocol_lengths v }) protocol_versions
