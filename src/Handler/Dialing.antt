-- ===== src/Handler/Dialing.antt =====
-- pkg/gossip/handler.go: the channel nextSuggestedPeer, through which the ticks of
-- peerInfoCollectionLoop and the goroutine of loadPeers hand nodes to the dialer of go-ethereum, who
-- takes them from the iterator of GetSuggestedPeerIterator. The steps of the three interleave.
pub mod Ordered
pub mod Drained
mod Tests
use sonicpeer.Base.{
  ◌>>=◌, Bool, true, false, List, [], ◌∷◌, ◌++◌, Option, none, some, if◌then◌else◌, ltb, length, ℕ,
}

-- The capacity of the channel
abbrev pub suggestion_capacity : ℕ
suggestion_capacity = 1024

-- The channel, the nodes that the goroutine of loadPeers has yet to send, whether the handler quits,
-- the node that the iterator stands at, whether the iterator is closed, and the nodes that it has
-- given.
pub record Dialing (N : Type 0) : Type 0 where
  pub queue : List N
  pub loading : List N
  pub quits : Bool
  pub next : Option N
  pub closed : Bool
  pub given : List N

-- What happens next: a tick suggests a node; the goroutine sends a node, or returns since the handler
-- quits; the handler quits; `Next` returns true, or false; the iterator is closed.
pub data Event (N : Type 0) : Type 0 where
  suggests : N → Event N
  loads gives_up quitting advances ends closing : Event N

module _ {N : Type 0} where
  -- `GetSuggestedPeerIterator` of a new handler, for which loadPeers has read the nodes
  abbrev pub new_dialing : List N → Dialing N
  new_dialing nodes = record {
    queue = [];
    loading = nodes;
    quits = false;
    next = none;
    closed = false;
    given = [];
  }

  -- The channel has room.
  abbrev pub has_room : Dialing N → Bool
  has_room d = ltb (length d.queue) suggestion_capacity

  -- The `select` of a tick, which does not wait
  pub suggest_next : N → Dialing N → Dialing N
  suggest_next n d = if has_room d then record d { queue = d.queue ++ n ∷ [] } else d

  -- The first case of the `select` of loadPeers, `none` while it waits
  pub load_next : Dialing N → Option (Dialing N)
  load_next d = elim d.loading [
    | [] ↦ none
    | n ∷ rest ↦
        if has_room d then some (record d { queue = d.queue ++ n ∷ []; loading = rest }) else none
  ]

  -- The second case
  pub give_up : Dialing N → Option (Dialing N)
  give_up d = if d.quits then some (record d { loading = [] }) else none

  -- The first case of `Next`, `none` while it waits
  pub advance : Dialing N → Option (Dialing N)
  advance d = elim d.queue [
    | [] ↦ none
    | n ∷ rest ↦ some (record d { queue = rest; next = some n; given = d.given ++ n ∷ [] })
  ]

  -- The second case
  pub end_iteration : Dialing N → Option (Dialing N)
  end_iteration d = if d.closed then some d else none

  -- `Close`, which panics the second time
  pub close_iterator : Dialing N → Option (Dialing N)
  close_iterator d = if d.closed then none else some (record d { closed = true })

  unfoldable pub happens : Event N → Dialing N → Option (Dialing N)
  unfolding suggest_next load_next give_up advance end_iteration close_iterator
  happens (suggests n) d = some (suggest_next n d)
  happens loads d = load_next d
  happens gives_up d = give_up d
  happens quitting d = some (record d { quits = true })
  happens advances d = advance d
  happens ends d = end_iteration d
  happens closing d = close_iterator d

  -- `none`: one of the events cannot happen then.
  unfoldable pub run : List (Event N) → Dialing N → Option (Dialing N)
  unfolding happens
  run [] d = some d
  run (x ∷ events) d = do d' ← happens x d; run events d'
