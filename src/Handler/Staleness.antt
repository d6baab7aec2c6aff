-- ===== src/Handler/Staleness.antt =====
-- pkg/gossip/handler.go: checkPeerStaleness. Times are counts of nanoseconds; the zero time is `none`.
-- A clock may be read later than the report that it belongs to, so the two readings of the clock are
-- two arguments: `now` for the start of a mismatch and `later` for its duration.
use mathlib.Core.List.{append-nil}
use sonicpeer.Base.{
  ℕ, ◌+◌, ◌-◌, ◌≤◌, ◌<◌, ◌≡◌, refl, ◌≢◌, not, List, [], ◌∷◌, Option, none, some, arith,
  if◌then◌else◌, ltb, ◌==◌, All, ap, sym, ◌∙◌, ◌++◌,
}
use sonicpeer.Env.{Env}
use sonicpeer.Peer.{Peer, disconnect}
use sonicpeer.Protocol.{Error}

-- A report of a peer's progress: the epoch that it names, the backend's epoch, and the clock.
pub record Report : Type 0 where
  pub epoch : ℕ
  pub current : ℕ
  pub now : ℕ
  pub later : ℕ

abbrev pub since : Option ℕ → ℕ → ℕ
since none now = now
since (some t) now = t

-- A report of another epoch than the backend's, and one that names the same.
abbrev pub Differs : Report → Type 0
Differs r = r.epoch ≢ r.current

-- A report of another epoch, read within the grace period from `start`.
abbrev pub Tolerated : ℕ → ℕ → Report → Type 0
Tolerated grace start r = Differs r × (r.later ≤ start + grace)

module _ {e : Env} where
  -- What the check does with a report of another epoch, if the mismatch began at `stale_since`.
  stale_check : ℕ → ℕ → ℕ → Peer e → Peer e × Option Error
  unfolding disconnect
  stale_check grace stale_since later p =
      let p' = record p { stale_since = some stale_since } in
      if ltb grace (later - stale_since)
      then (disconnect Error.disc_useless_peer p', some Error.un_synced_peer)
      else (p', none)

  -- `checkPeerStaleness`, for a grace period
  unfoldable pub check_peer_staleness : ℕ → Report → Peer e → Peer e × Option Error
  unfolding stale_check
  check_peer_staleness grace r p =
      if not (r.epoch == r.current)
      then if ltb 0 grace
        then stale_check grace (since p.stale_since r.now) r.later p
        else (p, none)
      else (record p { stale_since = none }, none)

  pub check_peer_staleness-known_txs :
      (grace : ℕ) (r : Report) (p : Peer e)
      → (check_peer_staleness grace r p).0.known_txs ≡ p.known_txs
  unfolding check_peer_staleness disconnect
  check_peer_staleness-known_txs grace r p = ground arith

  pub check_peer_staleness-id :
      (grace : ℕ) (r : Report) (p : Peer e) → (check_peer_staleness grace r p).0.id ≡ p.id
  unfolding check_peer_staleness disconnect
  check_peer_staleness-id grace r p = ground arith

  abbrev unless_error :
      (Peer e → Peer e × Option Error) → Peer e × Option Error → Peer e × Option Error
  unless_error next (p, none) = next p
  unless_error next (p, some x) = (p, some x)

  -- The reports of one connection in turn, up to the first error.
  unfoldable pub check_reports : ℕ → List Report → Peer e → Peer e × Option Error
  check_reports grace [] p = (p, none)
  check_reports grace (r ∷ rs) p =
      unless_error (check_reports grace rs) (check_peer_staleness grace r p)

  -- The peer while a mismatch that began at `start` is tolerated.
  abbrev stale_from : ℕ → Peer e → Peer e
  stale_from start p = record p { stale_since = some start }

  check_reports-pass :
      (grace : ℕ) (r : Report) (rs : List Report) (p p' : Peer e)
      → check_peer_staleness grace r p ≡ (p', none)
      → check_reports grace (r ∷ rs) p ≡ check_reports grace rs p'
  unfolding check_reports
  check_reports-pass grace r rs p p' h = ap (unless_error (check_reports grace rs)) h

  check_reports-fail :
      (grace : ℕ) (r : Report) (rs : List Report) (p p' : Peer e) (x : Error)
      → check_peer_staleness grace r p ≡ (p', some x)
      → check_reports grace (r ∷ rs) p ≡ (p', some x)
  unfolding check_reports
  check_reports-fail grace r rs p p' x h = ap (unless_error (check_reports grace rs)) h

  check-agrees :
      (grace : ℕ) (r : Report) (p : Peer e)
      → r.epoch ≡ r.current
      → check_peer_staleness grace r p ≡ (record p { stale_since = none }, none)
  unfolding check_peer_staleness
  check-agrees grace r p h = ground arith

  module _ (grace start : ℕ) (pos : 0 < grace) where
    check_late :
        (r : Report) (p : Peer e)
        → since p.stale_since r.now ≡ start
        → Tolerated grace start r
        → check_peer_staleness grace r p ≡ (stale_from start p, none)
    unfolding check_peer_staleness
    check_late r p s h = ground (arith, h.0, h.1)

    check-overdue :
        (r : Report) (p : Peer e)
        → since p.stale_since r.now ≡ start
        → Differs r
        → start + grace < r.later
        → check_peer_staleness grace r p
          ≡ (disconnect Error.disc_useless_peer (stale_from start p), some Error.un_synced_peer)
    unfolding check_peer_staleness
    check-overdue r p s h late = ground arith

    check_reports_late :
        (rs more : List Report) (p : Peer e)
        → All (Tolerated grace start) rs
        → check_reports grace (rs ++ more) (stale_from start p)
          ≡ check_reports grace more (stale_from start p)
    check_reports_late [] more p all = refl
    check_reports_late (r ∷ rs) more p (h, all) =
        check_reports-pass grace r (rs ++ more) (stale_from start p) (stale_from start p)
          (check_late r (stale_from start p) refl h)
        ∙ check_reports_late rs more p all

  -- The first two reports of the next theorem.
  begun :
      (grace : ℕ) (agrees first : Report) (more : List Report) (p : Peer e)
      → 0 < grace
      → agrees.epoch ≡ agrees.current
      → Tolerated grace first.now first
      → check_reports grace (agrees ∷ first ∷ more) p
        ≡ check_reports grace more (stale_from first.now p)
  begun grace agrees first more p pos same begins =
      let clear = record p { stale_since = none } in
      check_reports-pass grace agrees (first ∷ more) p clear (check-agrees grace agrees p same)
      ∙ check_reports-pass grace first more clear (stale_from first.now p)
          (check_late grace first.now pos first clear refl begins)

  -- A peer that names the epoch of the backend at `first` and other epochs from then on stays connected
  -- until the mismatch has lasted longer than the grace period, counted from the first report that
  -- differs: no report within that period is an error, and the first one after it disconnects the peer
  -- as useless.
  pub check_reports-grace :
      (grace : ℕ) (agrees first : Report) (rs : List Report) (last : Report) (p : Peer e)
      → 0 < grace
      → agrees.epoch ≡ agrees.current
      → Tolerated grace first.now first
      → All (Tolerated grace first.now) rs
      → Differs last
      → first.now + grace < last.later
      → (check_reports grace (agrees ∷ first ∷ rs) p ≡ (stale_from first.now p, none))
        × (check_reports grace (agrees ∷ first ∷ (rs ++ last ∷ [])) p ≡ (
          disconnect Error.disc_useless_peer (stale_from first.now p),
          some Error.un_synced_peer,
        ))
  unfolding check_reports
  check_reports-grace grace agrees first rs last p pos same begins all differs late = (
    begun grace agrees first rs p pos same begins
        ∙ ap (λ l. check_reports grace l (stale_from first.now p)) (sym (append-nil rs))
        ∙ check_reports_late grace first.now pos rs [] p all,
    begun grace agrees first (rs ++ last ∷ []) p pos same begins
        ∙ check_reports_late grace first.now pos rs (last ∷ []) p all
        ∙ check_reports-fail grace last [] (stale_from first.now p) _ Error.un_synced_peer
            (check-overdue grace first.now pos last (stale_from first.now p) refl differs late),
  )
