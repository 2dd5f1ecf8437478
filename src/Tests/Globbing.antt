-- ===== src/Tests/Globbing.antt =====
-- The policy of the empty configuration (Config/Policy.antt), with globs that are their patterns.
use coding_agent_sandbox.Common.{
  ℕ, Bool, true, false, ◌&&◌, ◌||◌, none, List, [], ◌∷◌, ◌++◌, ◌==◌, ◌⊎◌, inl, inr, ◌≡◌, refl, ap,
  arith, codes, nat_eq, list_eq, bool_eq, if◌then◌else◌,
}
use mathlib.Core.Path.{subst}
use coding_agent_sandbox.FilePath.{FilePath, Name, path_eq, strip_prefix}
use coding_agent_sandbox.Fuse.Policy.{mode_eq, fuse_only}
use coding_agent_sandbox.Config.Policy.{
  Config, Globs, ConfigPolicy, and_then, from_config, build_globset, build_globset_builder,
  with_sandbox, cwd_allowed, classify, should_log, rel,
}
use coding_agent_sandbox.Config.Policy.Laws.{IsFaithful, in_sandbox, classify_sandbox}
use coding_agent_sandbox.Tests.Tree.{path_a}

is_prefix : Name → Name → Bool
unfolding nat_eq
is_prefix [] p = true
is_prefix (x ∷ xs) [] = false
is_prefix (x ∷ xs) (y ∷ ys) = x == y && is_prefix xs ys

-- `.sandbox/**`, and patterns of no special character
glob_match : Name → Name → Bool
unfolding is_prefix nat_eq list_eq
glob_match pat p = if pat == codes ".sandbox/**" then is_prefix (codes ".sandbox/") p else pat == p

any_match : List Name → Name → Bool
any_match [] p = false
any_match (g ∷ gs) p = glob_match g p || any_match gs p

abbrev patterns : Globs
patterns = record {
  Glob = Name;
  GlobSet = List Name;
  GlobError = ℕ;
  expand_path = λ p. p;
  glob = λ p. inl p;
  build = λ gs. inl gs;
  is_match = any_match;
  to_string_lossy = λ p. p;
}

abbrev left_of : List Name ⊎ ℕ → List Name
left_of (inl x) = x
left_of (inr e) = []

any_match-append :
    (gs hs : List Name) (g p : Name) → glob_match g p ≡ true → any_match (gs ++ (g ∷ hs)) p ≡ true
unfolding any_match
any_match-append [] hs g p h = ground arith
any_match-append (k ∷ gs) hs g p h = ground (arith, any_match-append gs hs g p h)

abbrev pattern_of : Name ⊎ ℕ → Name
pattern_of (inl x) = x
pattern_of (inr e) = []

patterns-IsFaithful : IsFaithful patterns
unfolding glob_match
patterns-IsFaithful = record {
  glob_match = glob_match;
  union = λ gs hs g s p b h.
      subst (λ t. any_match t p ≡ true) (ap left_of b) (any_match-append gs hs g p h);
  itself = λ g e. subst (λ t. glob_match t (codes ".sandbox") ≡ true) (ap pattern_of e) refl;
  below = λ g rest e.
      subst (λ t. glob_match t (codes ".sandbox/" ++ rest) ≡ true) (ap pattern_of e) refl;
}

abbrev no_patterns : Config
no_patterns = record { whitelist = []; blacklist = []; disable_log = [] }

abbrev default_policy : ConfigPolicy patterns
default_policy = record {
  root = path_a;
  blacklist = codes ".sandbox" ∷ codes ".sandbox/**" ∷ [];
  whitelist = [];
  disable_log = [];
  root_is_whitelisted = true;
  cwd = none;
  cwd_is_whitelisted = false;
}

-- `/a/.sandbox/x`
abbrev inside : FilePath
inside = record { absolute = true; names = codes "x" ∷ codes ".sandbox" ∷ (97 ∷ []) ∷ [] }

default_made : from_config patterns no_patterns path_a none ≡ inl default_policy
unfolding from_config and_then build_globset build_globset_builder with_sandbox cwd_allowed
    any_match
default_made = refl

no_whitelist : build_globset patterns [] ≡ inl []
unfolding build_globset build_globset_builder and_then
no_whitelist = refl

inside-relative : rel patterns default_policy inside ≡ in_sandbox (codes "x" ∷ [])
unfolding rel strip_prefix path_eq list_eq nat_eq bool_eq
inside-relative = refl

out : patterns.is_match [] (codes ".sandbox") ≡ false
unfolding any_match
out = refl

classify_sandbox_example :
    (classify patterns default_policy inside ≡ fuse_only)
    × (should_log patterns default_policy inside ≡ false)
classify_sandbox_example =
    classify_sandbox patterns patterns-IsFaithful no_patterns path_a none default_policy [] inside
      (codes "x" ∷ []) default_made no_whitelist out inside-relative
