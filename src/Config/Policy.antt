-- ===== src/Config/Policy.antt =====
-- src/config/policy.rs: the policy of a configuration. Expanding a pattern reads the environment,
-- and compiling and matching globs is the library globset's: both are parameters.
pub mod Laws
use coding_agent_sandbox.Common.{
  ℕ, Bool, true, false, not, ◌&&◌, ◌||◌, Option, none, some, List, [], ◌∷◌, ◌++◌, ◌==◌, ◌⊎◌, inl,
  inr, if◌then◌else◌, codes,
}
use coding_agent_sandbox.FilePath.{FilePath, Name, path_eq, is_absolute, strip_prefix, starts_with}
use coding_agent_sandbox.Fuse.Policy.{AccessMode, Policy, passthrough, fuse_only, copy_on_write}

-- The three lists of `Config` that the policy reads. A pattern is its bytes.
pub record Config : Type 0 where
  pub whitelist : List Name
  pub blacklist : List Name
  pub disable_log : List Name

-- What the code uses of the environment and of globset. A path is matched as its bytes.
pub record Globs : Type 1 where
  pub Glob : Type 0
  pub GlobSet : Type 0
  pub GlobError : Type 0
  -- `expand_path`: `~/` becomes the home directory
  pub expand_path : Name → Name
  -- `Glob::new`
  pub glob : Name → Glob ⊎ GlobError
  -- `GlobSetBuilder::build`, on the globs that were added
  pub build : List Glob → GlobSet ⊎ GlobError
  pub is_match : GlobSet → Name → Bool
  -- `OsStr::to_string_lossy`
  pub to_string_lossy : Name → Name

-- The names of a path, deepest first, with `/` between them.
joined : List Name → Name
joined [] = []
joined (n ∷ []) = n
joined (n ∷ m ∷ ns) = joined (m ∷ ns) ++ (47 ∷ n)

-- `Path::as_os_str`
unfoldable pub as_os_str : FilePath → Name
unfolding joined
as_os_str p = if p.absolute then 47 ∷ joined p.names else joined p.names

-- `?` on a result
unfoldable pub and_then {ℓ κ μ} :
    {A : Type ℓ} {B : Type κ} {E : Type μ} → A ⊎ E → (A → B ⊎ E) → B ⊎ E
and_then (inl a) next = next a
and_then (inr e) next = inr e

module _ (G : Globs) where
  pub record ConfigPolicy : Type 0 where
    pub root : FilePath
    pub blacklist : G.GlobSet
    pub whitelist : G.GlobSet
    pub disable_log : G.GlobSet
    pub root_is_whitelisted : Bool
    pub cwd : Option FilePath
    pub cwd_is_whitelisted : Bool

  -- `build_globset_builder`: the globs, in the order of the patterns
  unfoldable pub build_globset_builder : List Name → List G.Glob ⊎ G.GlobError
  build_globset_builder [] = inl []
  build_globset_builder (pat ∷ pats) =
      and_then (G.glob (G.expand_path pat))
        (λ g. and_then (build_globset_builder pats) (λ gs. inl (g ∷ gs)))

  unfoldable pub build_globset : List Name → G.GlobSet ⊎ G.GlobError
  build_globset patterns = and_then (build_globset_builder patterns) (λ gs. G.build gs)

  -- The blacklist's globs with the two implicit ones.
  unfoldable pub with_sandbox : G.GlobSet → List G.Glob → List G.Glob ⊎ G.GlobError
  with_sandbox user_whitelist globs =
      if G.is_match user_whitelist (codes ".sandbox")
      then inl globs
      else and_then (G.glob (codes ".sandbox"))
          (λ g. and_then (G.glob (codes ".sandbox/**")) (λ h. inl (globs ++ (g ∷ h ∷ []))))

  unfoldable pub cwd_allowed : G.GlobSet → Option FilePath → Bool
  cwd_allowed user_blacklist none = false
  cwd_allowed user_blacklist (some p) =
      not (G.is_match user_blacklist (as_os_str p))
      && not (G.is_match user_blacklist (G.to_string_lossy (as_os_str p)))

  unfoldable pub from_config : Config → FilePath → Option FilePath → ConfigPolicy ⊎ G.GlobError
  from_config config root cwd = and_then (build_globset config.whitelist) (λ user_whitelist.
      and_then (build_globset config.blacklist) (λ user_blacklist.
        and_then (build_globset_builder config.blacklist) (λ user_globs.
          and_then (build_globset_builder config.whitelist) (λ wl_builder.
            and_then (build_globset_builder config.disable_log) (λ dl_builder.
              and_then (with_sandbox user_whitelist user_globs) (λ bl_builder.
                and_then (G.build bl_builder) (λ blacklist.
                  and_then (G.build wl_builder) (λ whitelist.
                    and_then (G.build dl_builder) (λ disable_log. inl (record {
                      root = root;
                      blacklist = blacklist;
                      whitelist = whitelist;
                      disable_log = disable_log;
                      root_is_whitelisted =
                          not (G.is_match user_blacklist (codes "."))
                          && not (G.is_match user_blacklist []);
                      cwd = cwd;
                      cwd_is_whitelisted = cwd_allowed user_blacklist cwd;
                    }))))))))))

  -- `path.strip_prefix(&self.root).unwrap_or(path)`
  unfoldable pub rel : ConfigPolicy → FilePath → FilePath
  rel policy path = elim (strip_prefix path policy.root) [ none ↦ path | some r ↦ r ]

  -- The test of the working directory's subtree.
  unfoldable pub under_cwd : ConfigPolicy → FilePath → Bool
  under_cwd policy path =
      policy.cwd_is_whitelisted
      && elim policy.cwd [ none ↦ false | some cwd ↦ path == cwd || starts_with path cwd ]

  unfoldable pub classify : ConfigPolicy → FilePath → AccessMode
  classify policy path =
      let r = rel policy path in
      if G.is_match policy.blacklist (as_os_str r)
      then fuse_only
      else if G.is_match policy.whitelist (as_os_str r)
      then passthrough
      else if not (is_absolute r) && policy.root_is_whitelisted
      then passthrough
      else if under_cwd policy path
      then passthrough
      else copy_on_write

  unfoldable pub should_log : ConfigPolicy → FilePath → Bool
  should_log policy path =
      let r = rel policy path in
      if G.is_match policy.blacklist (as_os_str r)
      then false
      else if G.is_match policy.whitelist (as_os_str r)
      then false
      else if not (is_absolute r) && policy.root_is_whitelisted
      then false
      else if under_cwd policy path
      then false
      else not (G.is_match policy.disable_log (as_os_str r))

  -- The implementation of the trait.
  unfoldable pub policy_of : ConfigPolicy → Policy
  policy_of p = record { classify = classify p; should_log = should_log p }
