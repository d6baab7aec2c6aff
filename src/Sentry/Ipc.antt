-- ===== src/Sentry/Ipc.antt =====
-- Where the socket of a sentry is.
use sonicpeer.Base.{
  ℕ, ◌≤◌, ◌≡◌, ◌≢◌, ◌↔◌, refl, inl, inr, true, List, [], ◌∷◌, arith, length, ltb, Bool-cases,
  if◌then◌else◌,
}
use sonicpeer.Sentry.{
  Text, Os, SentryConfig, NodeConfig, sonic_ipc, in_dir, absolute, mapped, fix_ipc, configure,
}

relocates : (n : ℕ) (path : Text) → path ≢ [] → (if ltb 100 n then path else []) ≡ [] ↔ n ≤ 100
relocates n path some' = elim (Bool-cases (ltb 100 n)) [
  | inl long ↦ rw long (λ h. absurd (some' h), λ h. absurd (ground (arith, long, h)))
  | inr short ↦ rw short (λ _. ground (arith, short), λ _. refl)
]

module _ {N : Type 0} (os : Os) (default : NodeConfig N) (cfg : SentryConfig) where
  -- The path of the socket in the data directory
  abbrev pub default_path : Text
  default_path = in_dir os (absolute os cfg.data_dir) sonic_ipc

  fix_ipc-disabled :
      cfg.ipc_disabled ≡ true
      → (fix_ipc os (mapped cfg default)).ipc_path
        ≡ (if ltb 100 (length default_path) then os.short_path else [])
  unfolding fix_ipc mapped
  fix_ipc-disabled off = rw off refl

  configure-ipc_path :
      (nodes : List N)
      → (configure os default cfg nodes).ipc_path ≡ (fix_ipc os (mapped cfg default)).ipc_path
  unfolding configure
  configure-ipc_path [] = refl
  configure-ipc_path (n ∷ nodes) = refl

  -- A sentry for which the socket is disabled has none exactly if the path that the socket would
  -- have had in the data directory is of 100 bytes at most: where it is longer, the correction of
  -- its length gives the node a socket under the directory for temporary files, whose path is
  -- assumed not to be empty.
  configure-disabled :
      (nodes : List N)
      → cfg.ipc_disabled ≡ true
      → os.short_path ≢ []
      → (configure os default cfg nodes).ipc_path ≡ [] ↔ length default_path ≤ 100
  configure-disabled nodes off path =
      rw (configure-ipc_path nodes)
        (rw (fix_ipc-disabled off) (relocates (length default_path) os.short_path path))
