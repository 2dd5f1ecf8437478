-- ===== src/Config/Policy/Laws.antt =====
-- What the policy of a configuration (Config/Policy.antt) promises.
use coding_agent_sandbox.Common.{
  Bool, true, false, not, ◌&&◌, Option, List, [], ◌∷◌, ◌++◌, ◌==◌, ◌⊎◌, inl, inr, ◌≡◌, ◌∙◌, refl,
  sym, ap, arith, codes,
}
use mathlib.Core.Path.{subst}
use mathlib.Core.List.{append_assoc}
use coding_agent_sandbox.FilePath.{FilePath, Name, path_eq}
use coding_agent_sandbox.Fuse.Policy.{mode_eq, fuse_only, copy_on_write}
use coding_agent_sandbox.Config.Policy.{
  Config, Globs, ConfigPolicy, and_then, joined, as_os_str, from_config, with_sandbox, rel,
  classify, should_log, build_globset,
}

module _ (G : Globs) (policy : ConfigPolicy G) (path : FilePath) where
  -- In every policy, a path is logged exactly when it is classified as copy_on_write and no
  -- disableLog glob matches it.
  pub should_log-classify : should_log G policy path ≡ (
      classify G policy path == copy_on_write
      && not (G.is_match policy.disable_log (as_os_str (rel G policy path))))
  unfolding should_log classify
  should_log-classify = ground arith

-- What globset documents, and no more than the code needs: a set matches what one of its globs
-- matches, `.sandbox` matches itself, and `.sandbox/**` everything below it.
pub record IsFaithful (G : Globs) : Type 0 where
  pub glob_match : G.Glob → Name → Bool
  pub union :
      (gs hs : List G.Glob) (g : G.Glob) (s : G.GlobSet) (p : Name)
      → G.build (gs ++ (g ∷ hs)) ≡ inl s
      → glob_match g p ≡ true
      → G.is_match s p ≡ true
  pub itself :
      (g : G.Glob) → G.glob (codes ".sandbox") ≡ inl g → glob_match g (codes ".sandbox") ≡ true
  pub below :
      (g : G.Glob) (rest : Name)
      → G.glob (codes ".sandbox/**") ≡ inl g
      → glob_match g (codes ".sandbox/" ++ rest) ≡ true

and_then-inl :
    {A B E : Type 0} (r : A ⊎ E) (next : A → B ⊎ E) (b : B)
    → and_then r next ≡ inl b
    → (a : A) × (r ≡ inl a) × (next a ≡ inl b)
unfolding and_then
and_then-inl (inl a) next b h = (a, refl, h)
and_then-inl (inr e) next b h = cc

-- Below `.sandbox` of a path that is relative to the root.
abbrev pub in_sandbox : List Name → FilePath
in_sandbox ns = record { absolute = false; names = ns ++ (codes ".sandbox" ∷ []) }

module _ (G : Globs) where
  abbrev blacklist_of : ConfigPolicy G ⊎ G.GlobError → G.GlobSet ⊎ G.GlobError
  blacklist_of (inl policy) = inl policy.blacklist
  blacklist_of (inr e) = inr e

  blacklist-from_config :
      (config : Config) (root : FilePath) (cwd : Option FilePath) (policy : ConfigPolicy G)
      → from_config G config root cwd ≡ inl policy
      → (ws : G.GlobSet) × (globs : List G.Glob) × (bl : List G.Glob) × (build_globset G
            config.whitelist
          ≡ inl ws)
        × (with_sandbox G ws globs ≡ inl bl)
        × (G.build bl ≡ inl policy.blacklist)
  unfolding from_config
  blacklist-from_config config root cwd policy h =
      let (ws, e1, h1) = and_then-inl _ _ policy h in
      let (us, e2, h2) = and_then-inl _ _ policy h1 in
      let (globs, e3, h3) = and_then-inl _ _ policy h2 in
      let (wl, e4, h4) = and_then-inl _ _ policy h3 in
      let (dl, e5, h5) = and_then-inl _ _ policy h4 in
      let (bl, e6, h6) = and_then-inl _ _ policy h5 in
      let (b, e7, h7) = and_then-inl _ _ policy h6 in
      let (w, e8, h8) = and_then-inl _ _ policy h7 in
      let (d, e9, h9) = and_then-inl _ _ policy h8 in
      (ws, globs, bl, e1, e6, e7 ∙ ap blacklist_of h9)

-- A path of two names or more whose first is `.sandbox`.
joined-sandbox :
    (n : Name) (ns : List Name)
    → (rest : Name) × (joined ((n ∷ ns) ++ (codes ".sandbox" ∷ [])) ≡ codes ".sandbox/" ++ rest)
unfolding joined
joined-sandbox n [] = (n, refl)
joined-sandbox n (m ∷ ns) =
    let (rest, e) = joined-sandbox m ns in (rest ++ (47 ∷ n), ap (λ x. x ++ (47 ∷ n)) e)

module _ (G : Globs) (faithful : IsFaithful G) where
  match_sandbox :
      (globs : List G.Glob) (g h : G.Glob) (s : G.GlobSet) (ns : List Name)
      → G.glob (codes ".sandbox") ≡ inl g
      → G.glob (codes ".sandbox/**") ≡ inl h
      → G.build (globs ++ (g ∷ h ∷ [])) ≡ inl s
      → G.is_match s (as_os_str (in_sandbox ns)) ≡ true
  unfolding as_os_str joined
  match_sandbox globs g h s [] eg eh b =
      faithful.union globs (h ∷ []) g s _ b (faithful.itself g eg)
  match_sandbox globs g h s (n ∷ ns) eg eh b =
      let (rest, e) = joined-sandbox n ns in
      faithful.union (globs ++ (g ∷ [])) [] h s _
        (subst (λ x. G.build x ≡ inl s) (sym (append_assoc globs (g ∷ []) (h ∷ []))) b)
        (subst (λ x. faithful.glob_match h x ≡ true) (sym e) (faithful.below h rest eh))

  with_sandbox-inl :
      (ws : G.GlobSet) (globs bl : List G.Glob)
      → G.is_match ws (codes ".sandbox") ≡ false
      → with_sandbox G ws globs ≡ inl bl
      → (g : G.Glob) × (h : G.Glob) × (G.glob (codes ".sandbox") ≡ inl g)
        × (G.glob (codes ".sandbox/**") ≡ inl h)
        × (globs ++ (g ∷ h ∷ []) ≡ bl)
  unfolding with_sandbox
  with_sandbox-inl ws globs bl out e =
      let e' = rw out at e in
      let (g, eg, e1) = and_then-inl _ _ bl e' in
      let (h, eh, e2) = and_then-inl _ _ bl e1 in (g, h, eg, eh, cc)

  -- If globset does as it documents on .sandbox and .sandbox/** (IsFaithful), and the user's
  -- whitelist does not match .sandbox, the policy of the configuration classifies .sandbox of the
  -- root and all below it as fuse_only, and logs none of it.
  pub classify_sandbox :
      (config : Config) (root : FilePath) (cwd : Option FilePath) (policy : ConfigPolicy G)
      (ws : G.GlobSet) (path : FilePath) (ns : List Name)
      → from_config G config root cwd ≡ inl policy
      → build_globset G config.whitelist ≡ inl ws
      → G.is_match ws (codes ".sandbox") ≡ false
      → rel G policy path ≡ in_sandbox ns
      → (classify G policy path ≡ fuse_only) × (should_log G policy path ≡ false)
  unfolding classify should_log
  classify_sandbox config root cwd policy ws path ns made built out r =
      let (us, globs, bl, e1, e2, e3) = blacklist-from_config G config root cwd policy made in
      let same : us ≡ ws = cc in
      let (g, h, eg, eh, e4) =
        with_sandbox-inl ws globs bl out (subst (λ w. with_sandbox G w globs ≡ inl bl) same e2) in
      let hit =
        match_sandbox globs g h policy.blacklist ns eg eh
          (subst (λ x. G.build x ≡ inl policy.blacklist) (sym e4) e3) in
      rw (r, hit) (refl, refl)
