-- ===== src/Launcher/Split.antt =====
-- The lists of the command line.
use mathlib.Core.List.{append_assoc, append-nil}
use sonicpeer.Base.{
  All, ℕ, ◌≡◌, ◌≢◌, refl, sym, ap, ◌∙◌, inl, inr, false, List, [], ◌∷◌, ◌++◌, Option, none, some,
  arith, map, member, ◌==◌, Bool-cases,
}
use sonicpeer.Launcher.{comma, split, trim_space, split_and_trim}
use sonicpeer.Sentry.{
  Text, Os, NodeConfig, SentryConfig, parsed, parse_bootnodes, bootnode_urls, creates, registers,
  ready, configure, new_sentry,
}
use sonicpeer.Sentry.Configured.{StandFor}

-- `strings.Join` with commas
unfoldable pub join : List Text → Text
join [] = []
join (part ∷ []) = part
join (part ∷ next ∷ parts) = part ++ comma ∷ join (next ∷ parts)

-- No part has a comma.
abbrev pub CommaFree : List Text → Type 0
CommaFree parts = All (λ part. member comma part ≡ false) parts

-- A text without a comma does not start with one.
not_comma :
    (c : ℕ) (cs : Text)
    → member comma (c ∷ cs) ≡ false
    → ((c == comma) ≡ false) × (member comma cs ≡ false)
not_comma c cs free = elim (Bool-cases (c == comma)) [
  | inl same ↦ absurd (ground (arith, free, same))
  | inr other ↦ (other, rw other at free)
]

split-free : (part : Text) → member comma part ≡ false → split part ≡ part ∷ []
unfolding split
split-free [] free = refl
split-free (c ∷ cs) free =
    let (other, free') = not_comma c cs free in rw other (rw (split-free cs free') refl)

split-append :
    (part rest : Text)
    → member comma part ≡ false
    → split (part ++ comma ∷ rest) ≡ part ∷ split rest
unfolding split
split-append [] rest free = refl
split-append (c ∷ cs) rest free =
    let (other, free') = not_comma c cs free in rw other (rw (split-append cs rest free') refl)

split-join :
    (part : Text) (parts : List Text)
    → CommaFree (part ∷ parts)
    → split (join (part ∷ parts)) ≡ part ∷ parts
unfolding join
split-join part [] free = split-free part free.0
split-join part (next ∷ parts) free =
    split-append part (join (next ∷ parts)) free.0
    ∙ ap (λ l. part ∷ l) (split-join next parts free.1)

split_and_trim-some : (text : Text) → text ≢ [] → split_and_trim text ≡ map trim_space (split text)
unfolding split_and_trim
split_and_trim-some [] some' = absurd (some' refl)
split_and_trim-some (c ∷ cs) some' = refl

split_and_trim-join :
    (part : Text) (parts : List Text)
    → CommaFree (part ∷ parts)
    → join (part ∷ parts) ≢ []
    → split_and_trim (join (part ∷ parts)) ≡ map trim_space (part ∷ parts)
split_and_trim-join part parts free some' =
    split_and_trim-some (join (part ∷ parts)) some'
    ∙ ap (map trim_space) (split-join part parts free)

dials :
    {N : Type 0} (os : Os) (default : NodeConfig N) (cfg : SentryConfig) (nodes : List N)
    → (configure os default cfg nodes).bootstrap_nodes ≡ nodes
unfolding configure
dials os default cfg [] = refl
dials os default cfg (n ∷ nodes) = refl

module _ {N : Type 0} (parse : Text → Option N) where
  parse_bootnodes-filled :
      (urls : List Text) (acc nodes : List N)
      → StandFor parse urls nodes
      → parse_bootnodes parse urls acc ≡ parsed (acc ++ nodes)
  unfolding parse_bootnodes
  parse_bootnodes-filled [] acc [] all = ap parsed (sym (append-nil acc))
  parse_bootnodes-filled [] acc (n ∷ nodes) all = absurd (ground (arith, all))
  parse_bootnodes-filled ([] ∷ urls) acc nodes all = parse_bootnodes-filled urls acc nodes all
  parse_bootnodes-filled ((c ∷ url) ∷ urls) acc [] all = absurd (ground (arith, all))
  parse_bootnodes-filled ((c ∷ url) ∷ urls) acc (n ∷ nodes) all =
      let head : parse (c ∷ url) ≡ some n = ground (arith, all) in
      let tail : StandFor parse urls nodes = ground (arith, all) in
      rw (head, parse_bootnodes)
        (parse_bootnodes-filled urls (acc ++ n ∷ []) nodes tail
          ∙ ap parsed (append_assoc acc (n ∷ []) nodes))

  -- From the command line to the node: addresses that are joined with commas, with spaces around them and with
  -- empty ones among them, are the nodes that a new sentry dials at the start, all of them and in their
  -- order, if no address has a comma, each that is not empty without its spaces parses, and the joined
  -- text is not empty, that is, it is not of a single empty address, for which NewSentry takes the
  -- default bootnodes.
  pub new_sentry-join :
      (os : Os) (default : NodeConfig N) (defaults : List Text) (cfg : SentryConfig) (part : Text)
      (parts : List Text) (nodes : List N)
      → CommaFree (part ∷ parts)
      → join (part ∷ parts) ≢ []
      → StandFor parse (map trim_space (part ∷ parts)) nodes
      → (c : NodeConfig N) × (new_sentry os parse default defaults none none
            (record cfg { bootnodes = split_and_trim (join (part ∷ parts)) })
          ≡ (creates c ∷ registers ∷ [], ready c))
        × (c.bootstrap_nodes ≡ nodes)
  unfolding new_sentry
  new_sentry-join os default defaults cfg part parts nodes free some' all =
      let cfg' : SentryConfig = record cfg { bootnodes = split_and_trim (join (part ∷ parts)) } in
      let urls = split_and_trim-join part parts free some' in
      let runs : parse_bootnodes parse (bootnode_urls cfg'.bootnodes defaults) [] ≡ parsed nodes =
        rw urls (parse_bootnodes-filled (map trim_space (part ∷ parts)) [] nodes all) in
      (configure os default cfg' nodes, rw (runs, new_sentry) refl, dials os default cfg' nodes)
