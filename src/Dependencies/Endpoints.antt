-- ===== src/Dependencies/Endpoints.antt =====
-- The container's variables through a pass of reconcileToolDependencies.
use agentroll.Prelude.{
  ◌≡◌, refl, ◌∙◌, ap, sym, false, String, List, [], ◌∷◌, ◌++◌, Bool-cases, inl, inr, Option, none,
  some,
}
use mathlib.Core.List.{append_assoc, append-nil}
use agentroll.Float.{Float64}
use agentroll.Api.{AgentDeployment, EnvVar, EnvSource, ToolDependency}
use agentroll.Kube.{Env, Result, ok, err, Service}
use agentroll.Kube.Exec.{World}
use agentroll.Kube.Exec.Keeps.{Change, Keeps, Keeps-bind, keeps_rules}
use agentroll.Experiment.Tool.{active_tool_experiment}
use agentroll.Dependencies.Tools.{
  has_var, add_var, endpoint_var, inject_endpoint, settle_endpoint, resolve_tool, resolve_declared,
  resolve_additional, reconcile_tool_dependencies,
}

-- Each of `added` has a name that neither `env` nor an earlier one of `added` has.
abbrev pub Fresh : List EnvVar → List EnvVar → Type 0
Fresh env [] = Unit
Fresh env (v ∷ added) = (has_var v.name env ≡ false) × Fresh (env ++ v ∷ []) added

Fresh-append :
    (env xs ys : List EnvVar) → Fresh env xs → Fresh (env ++ xs) ys → Fresh env (xs ++ ys)
Fresh-append env [] ys _ q = rw (sym (append-nil env)) q
Fresh-append env (x ∷ xs) ys (p, ps) q =
    (p, Fresh-append (env ++ x ∷ []) xs ys ps (rw (append_assoc env (x ∷ []) xs) q))

module _ {F : Type 0} where
  abbrev pub with_env : List EnvVar → AgentDeployment F → AgentDeployment F
  with_env env a = record a {
    spec = record a.spec { container = record a.spec.container { env = env } };
  }

  -- `b` is `a` with new variables, of new names, at the end of its container's list.
  abbrev pub Extends : AgentDeployment F → AgentDeployment F → Type 0
  Extends a b =
      (added : List EnvVar) × (b ≡ with_env (a.spec.container.env ++ added) a)
      × Fresh a.spec.container.env added

  with_same : (a : AgentDeployment F) → a ≡ with_env (a.spec.container.env ++ []) a
  with_same a = rw (append-nil a.spec.container.env) refl

  Extends-chain : (a b c : AgentDeployment F) → Extends a b → Extends b c → Extends a c
  Extends-chain a b c (xs, e, f) (ys, d, g) =
      (xs ++ ys, joined, Fresh-append a.spec.container.env xs ys f fresh)
    where
      env_of : b.spec.container.env ≡ a.spec.container.env ++ xs
      env_of = ap (λ (x : AgentDeployment F). x.spec.container.env) e

      fresh : Fresh (a.spec.container.env ++ xs) ys
      fresh = rw (sym env_of) g

      joined : c ≡ with_env (a.spec.container.env ++ (xs ++ ys)) a
      joined =
          d
          ∙ ap (λ (x : AgentDeployment F). with_env (x.spec.container.env ++ ys) x) e
          ∙ ap (λ l. with_env l a) (append_assoc a.spec.container.env xs ys)

  abbrev extends : Change F
  extends = record { Rel = Extends; same = λ a. ([], with_same a, tt); chain = Extends-chain }

  inject-Extends :
      (tool endpoint : String) (a : AgentDeployment F) → Extends a (inject_endpoint tool endpoint a)
  unfolding inject_endpoint add_var
  inject-Extends tool endpoint a =
      elim (Bool-cases (has_var (endpoint_var tool) a.spec.container.env)) [
        | inl there ↦ rw there ([], with_same a, tt)
        | inr missing ↦ rw missing (
          record { name = endpoint_var tool; value = EnvSource.literal endpoint } ∷ [],
          refl,
          (missing, tt),
        )
      ]

  settle-Keeps :
      (env : Env F) (tool : String) (r : Result (Option String))
      → Keeps (extends) (settle_endpoint env tool r)
  unfolding settle_endpoint
  settle-Keeps env tool (ok none) = search keeps_rules
  settle-Keeps env tool (ok (some endpoint)) = search (keeps_rules, inject-Extends)
  settle-Keeps env tool (err e) = search keeps_rules

  module _ (env : Env F) where
    resolve_tool-Keeps :
        (endpoint_of : String → ToolDependency → Result Service → Result (Option String))
        (tool : ToolDependency)
        → Keeps (extends) (resolve_tool env endpoint_of tool)
    unfolding resolve_tool
    resolve_tool-Keeps endpoint_of tool =
        search (keeps_rules, settle-Keeps, inject-Extends) depth 12

    resolve_declared-Keeps :
        (removed : List String) (tools : List ToolDependency)
        → Keeps (extends) (resolve_declared env removed tools)
    unfolding resolve_declared
    resolve_declared-Keeps removed [] = search keeps_rules
    resolve_declared-Keeps removed (tool ∷ tools) =
        Keeps-bind _ _ (search (keeps_rules, resolve_tool-Keeps) depth 12)
          (λ _. resolve_declared-Keeps removed tools)

    resolve_additional-Keeps :
        (tools : List ToolDependency) → Keeps (extends) (resolve_additional env tools)
    unfolding resolve_additional
    resolve_additional-Keeps [] = search keeps_rules
    resolve_additional-Keeps (tool ∷ tools) =
        Keeps-bind _ _ (resolve_tool-Keeps _ tool) (λ _. resolve_additional-Keeps tools)

    active-Keeps : ⦃fl : Float64 F⦄ → Keeps (extends) (active_tool_experiment env)
    unfolding active_tool_experiment
    active-Keeps = search keeps_rules depth 12

    -- Whatever the environment answers, and also when it ends in an error, a pass over the tools
    -- changes nothing of the agent but its container's variables: those that were there stay, in
    -- their order, and what is added has names that occur once.
    pub reconcile_tool_dependencies-Extends :
        ⦃fl : Float64 F⦄
        → (w : World F) → Extends w.agent (reconcile_tool_dependencies env w).1.agent
    unfolding reconcile_tool_dependencies
    reconcile_tool_dependencies-Extends w = pass.at w
      where
        pass : Keeps (extends) (reconcile_tool_dependencies env)
        pass =
            search (keeps_rules, active-Keeps, resolve_declared-Keeps, resolve_additional-Keeps)
              depth 12
