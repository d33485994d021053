-- ===== src/Rollout/Version/Forgets.antt =====
-- What buildCompositeVersion forgets of spec.agentMeta.toolDependencies.
use mathlib.Core.List.{Perm, foldr}
use mathlib.Core.List.Perm
use agentroll.Prelude.{◌≡◌, refl, sym, ◌∙◌, ap, Bool, true, false, ◌<>◌, List, [], ◌∷◌, is_empty}
use agentroll.Api.{AgentDeployment, ToolDependency}
use agentroll.Kube.{Env}
use agentroll.Rollout.Version.{tools_hash_from_deps, build_composite_version, join}
use agentroll.Rollout.Version.Order.{sort_texts-perm}

is_empty-foldr : {A : Type 0} (xs : List A) → is_empty xs ≡ foldr (λ x b. false) true xs
is_empty-foldr [] = refl
is_empty-foldr (x ∷ xs) = refl

is_empty-perm : {A : Type 0} {xs ys : List A} → Perm xs ys → is_empty xs ≡ is_empty ys
is_empty-perm {A} {xs} {ys} p =
    is_empty-foldr xs
    ∙ Perm.foldr-eq (hlevel) (λ (x : A) (b : Bool). false) (λ x y b. refl) p true
    ∙ sym (is_empty-foldr ys)

abbrev pub with_tools : {F : Type 0} → List ToolDependency → AgentDeployment F → AgentDeployment F
with_tools deps a = record a {
  spec = record a.spec { agent_meta = record a.spec.agent_meta { tool_dependencies = deps } };
}

module _ {F : Type 0} (env : Env F) where
  hash-perm :
      {deps deps' : List ToolDependency}
      → Perm deps deps'
      → tools_hash_from_deps env deps ≡ tools_hash_from_deps env deps'
  unfolding tools_hash_from_deps
  hash-perm p =
      ap (λ ts. env.digest_prefix (join "," ts))
        (sort_texts-perm (Perm.map (λ d. d.name <> "@" <> d.version) p))

  -- The composite version does not depend on the order in which the spec lists its tools.
  pub build_composite_version-perm :
      (a : AgentDeployment F) (deps deps' : List ToolDependency)
      → Perm deps deps'
      → build_composite_version env (with_tools deps a)
        ≡ build_composite_version env (with_tools deps' a)
  unfolding build_composite_version
  build_composite_version-perm a deps deps' p = rw (is_empty-perm p, hash-perm p) refl
