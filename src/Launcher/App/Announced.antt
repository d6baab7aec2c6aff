-- ===== src/Launcher/App/Announced.antt =====
-- What a test harness sees on the channels that it gives to the program.
use sonicpeer.Base.{
  ◌≡◌, ◌⊎◌, ℕ, refl, ap, ◌∙◌, arith, inl, inr, Bool, true, false, List, [], ◌∷◌, ◌++◌, Option, none,
  some, map, ◌>>=◌, if◌then◌else◌, Option-cases,
}
use sonicpeer.Sentry.{SentryError, Text, NodeConfig, Action, Sentry, ready, no_sentry, new_sentry}
use sonicpeer.Launcher.App.{
  Options, Channel, id_channel, port_channel, AppControl, Step, does, starts, spawns, waits,
  announces, closes_channel, MainError, usage, not_made, not_started, Outside, CommandLine, acts,
  done, fails, announcements, then_starts, start_sentry, sentry_main_internal, closings,
  run_with_args, sentry_config,
}

-- What is seen on one channel: whether the node has been started, what has been received, and whether
-- the channel is closed.
pub record Seen : Type 0 where
  pub running : Bool
  pub received : List Text
  pub is_closed : Bool

abbrev pub unseen : Seen
unseen = record { running = false; received = []; is_closed = false }

abbrev same : Channel → Channel → Bool
same id_channel id_channel = true
same port_channel port_channel = true
same _ _ = false

abbrev at : Bool → List Text → Bool → Seen
at running received is_closed = record {
  running = running;
  received = received;
  is_closed = is_closed;
}

module _ (channel : Channel) where
  -- The harness has given the program the channel.
  abbrev pub given : Option AppControl → Bool
  given none = false
  given (some c) = elim channel [ id_channel ↦ c.has_node_id | port_channel ↦ c.has_http_port ]

  -- What is announced on the channel of a node that runs
  abbrev pub told : Text → Text → List Text
  told node_info [] = elim channel [ id_channel ↦ node_info ∷ [] | port_channel ↦ [] ]
  told node_info (c ∷ cs) = elim channel [
    | id_channel ↦ node_info ∷ []
    | port_channel ↦ (c ∷ cs) ∷ []
  ]

module _ {N : Type 0} (channel : Channel) where
  -- `none`: a value on a closed channel, a channel that is closed again, or an announcement of a node that
  -- does not run.
  abbrev pub sees : Step N → Seen → Option Seen
  sees starts s = some (record s { running = true })
  sees (announces c text) s =
      if same channel c
      then if s.is_closed
        then none
        else if s.running
        then some (record s { received = s.received ++ text ∷ [] })
        else none
      else some s
  sees (closes_channel c) s =
      if same channel c
      then if s.is_closed then none else some (record s { is_closed = true })
      else some s
  sees _ s = some s

  abbrev pub watch : List (Step N) → Seen → Option Seen
  watch [] s = some s
  watch (step ∷ steps) s = do s' ← sees step s; watch steps s'

  watch-does : (actions : List (Action N)) (s : Seen) → watch (map does actions) s ≡ some s
  watch-does [] s = refl
  watch-does (a ∷ actions) s = watch-does actions s

  watch-append :
      (xs ys : List (Step N)) (s t : Seen) → watch xs s ≡ some t → watch (xs ++ ys) s ≡ watch ys t
  watch-append [] ys s t h = ap (λ o. o >>= watch ys) h
  watch-append (x ∷ xs) ys s t h = elim (Option-cases (sees x s)) [
    | inl panics ↦ absurd (ground (arith, h, panics))
    | inr (s', seen) ↦
        let h' : watch xs s' ≡ some t = rw seen at h in
        rw (seen, watch) (watch-append xs ys s' t h')
  ]

abbrev control_of : Bool → Bool → Option AppControl
control_of i p = some (record { has_node_id = i; has_http_port = p })

module _ (N : Type 0) where
  watch-closings :
      (ch : Channel) (i p r : Bool) (m : List Text)
      → watch {N = N} ch (closings (control_of i p)) (at r m false)
        ≡ some (at r m (given ch (control_of i p)))
  watch-closings ch i p r m = ground arith

  watch-closings_all :
      (ch : Channel) (control : Option AppControl) (r : Bool) (m : List Text)
      → watch {N = N} ch (closings control) (at r m false) ≡ some (at r m (given ch control))
  watch-closings_all ch none r m = refl
  watch-closings_all ch (some c) r m = watch-closings ch c.has_node_id c.has_http_port r m

  watch-announcements :
      (ch : Channel) (i p : Bool) (info url : Text) (rest : List (Step N))
      → watch ch (announcements info url (control_of i p) ++ rest) (at true [] false)
        ≡ watch ch rest (at true (if given ch (control_of i p) then told ch info url else []) false)
  watch-announcements ch i p info [] rest = ground arith
  watch-announcements ch i p info (c ∷ url) rest = ground arith

  watch-announcements_all :
      (ch : Channel) (control : Option AppControl) (info url : Text) (rest : List (Step N))
      → watch ch (announcements info url control ++ rest) (at true [] false)
        ≡ watch ch rest (at true (if given ch control then told ch info url else []) false)
  watch-announcements_all ch none info url rest = refl
  watch-announcements_all ch (some c) info url rest =
      watch-announcements ch c.has_node_id c.has_http_port info url rest

-- It only prints what the reader of the command line prints, or it fails.
abbrev pub Ends : CommandLine → Option MainError → Type 0
Ends line err = ((line ≡ done) × (err ≡ none)) ⊎ ((x : MainError) × (err ≡ some x))

read_options : Options → CommandLine → Options
read_options o (acts o') = o'
read_options o _ = o

acts-injective : {o o' : Options} → acts o ≡ acts o' → o ≡ o'
unfolding read_options
acts-injective {o} h = ap (read_options o) h

module _ {N : Type 0} where
  -- The program reads its options, makes the sentry and starts it.
  pub record Runs (out : Outside N) (line : CommandLine) : Type 0 where
    pub options : Options
    pub read : line ≡ acts options
    pub config : NodeConfig N
    pub is_made :
        (new_sentry out.os out.parse out.default out.defaults out.stack out.service
          (sentry_config options)).1
        ≡ ready config
    pub is_started : out.start ≡ none

  unmade :
      (out : Outside N) (o : Options) (x : SentryError)
      → (new_sentry out.os out.parse out.default out.defaults out.stack out.service
          (sentry_config o)).1
        ≡ no_sentry x
      → ¬ Runs out (acts o)
  unmade out o x failed runs =
      let same = acts-injective runs.read in absurd (ground (arith, failed, runs.is_made, same))

  module _ (out : Outside N) (control : Option AppControl) (ch : Channel) where
    -- The node has been started and announced; or it has not, and the program ends and has announced
    -- nothing.
    abbrev pub Announces : CommandLine → Option MainError → List Text → Type 0
    Announces line err received =
        (Runs out line
          × (err ≡ none)
          × (received ≡ (if given ch control then told ch out.node_info out.http_endpoint else [])))
        ⊎ (Ends line err × (received ≡ []) × ¬ Runs out line)

    abbrev received_if : List Text
    received_if = if given ch control then told ch out.node_info out.http_endpoint else []

    abbrev started : List (Step N)
    started = starts ∷ announcements out.node_info out.http_endpoint control ++ spawns ∷ []

    start-runs : out.start ≡ none → start_sentry out control ≡ (started, none)
    unfolding start_sentry
    start-runs good = rw (good, start_sentry) refl

    start-fails :
        (x : ℕ)
        → out.start ≡ some x
        → start_sentry out control ≡ (starts ∷ [], some (not_started x))
    unfolding start_sentry
    start-fails x bad = rw (bad, start_sentry) refl

    watch-started : watch ch started unseen ≡ some (at true received_if false)
    watch-started =
        watch-announcements_all N ch control out.node_info out.http_endpoint (spawns ∷ [])

    then_starts-Announces :
        (o : Options) (r : List (Action N) × Sentry N)
        → new_sentry out.os out.parse out.default out.defaults out.stack out.service
            (sentry_config o)
          ≡ r
        → (b : Bool) × (m : List Text) × (watch ch (then_starts out control r).0 unseen
            ≡ some (at b m false))
          × Announces (acts o) (then_starts out control r).1 m
    unfolding then_starts
    then_starts-Announces o (actions, no_sentry x) made = (
      false,
      [],
      watch-does ch actions unseen,
      inr (inr (not_made x, refl), refl, unmade out o x (ap (λ r. r.1) made)),
    )
    then_starts-Announces o (actions, ready c) made =
        let skips : (steps : List (Step N))
            → watch ch (map does actions ++ steps) unseen ≡ watch ch steps unseen =
          λ steps.
            watch-append ch (map does actions) steps unseen unseen (watch-does ch actions unseen) in
        elim (Option-cases out.start) [
          | inr (x, bad) ↦ rw (start-fails x bad) (
            true,
            [],
            skips (starts ∷ []),
            inr (
              inr (not_started x, refl),
              refl,
              λ runs. absurd (ground (arith, bad, runs.is_started)),
            ),
          )
          | inl good ↦ rw (start-runs good) (
            true,
            received_if,
            watch-append ch (map does actions ++ started) (waits ∷ []) unseen
                (at true received_if false) (skips started ∙ watch-started),
            inl (
              record {
                options = o;
                read = refl;
                config = c;
                is_made = ap (λ r. r.1) made;
                is_started = good;
              },
              refl,
              refl,
            ),
          )
        ]

    main-Announces :
        (o : Options)
        → (b : Bool) × (m : List Text) × (watch ch (sentry_main_internal out o control).0 unseen
            ≡ some (at b m false))
          × Announces (acts o) (sentry_main_internal out o control).1 m
    unfolding sentry_main_internal
    main-Announces o = then_starts-Announces o _ refl

    pub run_with_args-Announces :
        (line : CommandLine)
        → (s : Seen) × (watch ch (run_with_args out line control).0 unseen ≡ some s)
          × (s.is_closed ≡ given ch control)
          × Announces line (run_with_args out line control).1 s.received
    unfolding run_with_args
    run_with_args-Announces (fails x) = (
      _,
      watch-closings_all N ch control false [],
      refl,
      inr (inr (usage x, refl), refl, λ runs. absurd (ground (arith, runs.read))),
    )
    run_with_args-Announces done = (
      _,
      watch-closings_all N ch control false [],
      refl,
      inr (inl (refl, refl), refl, λ runs. absurd (ground (arith, runs.read))),
    )
    run_with_args-Announces (acts o) =
        let (r, m, seen, rest) = main-Announces o in
        (
          at r m (given ch control),
          watch-append ch (sentry_main_internal out o control).0 (closings control) unseen
                (at r m false) seen
              ∙ watch-closings_all N ch control r m,
          refl,
          rest,
        )
