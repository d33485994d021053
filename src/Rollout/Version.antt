-- ===== src/Rollout/Version.antt =====
-- buildCompositeVersion, extractImageTag, toolsHashFromDeps and buildLabels of
-- internal/controller/agentdeployment_controller.go.
pub mod Tags
pub mod Order
pub mod Forgets
use Prim.Native.Char.{Char, code}
use text.Mathlib.Text as Text
use agentroll.Prelude.{
  Bool, ◌&&◌, String, ◌<>◌, List, [], ◌∷◌, map, Dict, insert, is_set, or_default, is_empty, leb,
  if◌then◌else◌,
}
use agentroll.Api.{AgentDeployment, ToolDependency}
use agentroll.Kube.{Env}

-- The walk of extractImageTag from the end of the image, with the text already passed: at a ':' that
-- text is the tag, and a '/' ends the walk.
pub data Scan : Type 0 where
  passed : String → Scan
  found : String → Scan
  stopped : Scan

abbrev pub scan_char : Char → Scan → Scan
scan_char c (passed tail) =
    let n = code c in
    if leb 58 n && leb n 58
    then found tail
    else if leb 47 n && leb n 47
    then stopped
    else passed (String.◌∷◌ c tail)
scan_char c s = s

scan_back : String → Scan
scan_back String.[] = passed ""
scan_back (String.◌∷◌ c s) = scan_char c (scan_back s)

tag_of : Scan → String
tag_of (found tag) = tag
tag_of _ = "latest"

-- extractImageTag.
unfoldable pub extract_image_tag : String → String
unfolding scan_back tag_of
extract_image_tag image = tag_of (scan_back image)

-- sort.Strings: insertion into a sorted list.
abbrev pub text_le : String → String → Bool
text_le s t = Text.is_le (Prim.Native.String.compare s t)

unfoldable pub insert_text : String → List String → List String
insert_text s [] = s ∷ []
insert_text s (t ∷ ts) = let rest = insert_text s ts in if text_le s t then s ∷ t ∷ ts else t ∷ rest

unfoldable pub sort_texts : List String → List String
unfolding insert_text
sort_texts [] = []
sort_texts (s ∷ ss) = insert_text s (sort_texts ss)

-- strings.Join.
unfoldable pub join : String → List String → String
join sep [] = ""
join sep (s ∷ []) = s
join sep (s ∷ t ∷ rest) = s <> sep <> join sep (t ∷ rest)

module _ {F : Type 0} (env : Env F) where
  -- toolsHashFromDeps.
  unfoldable pub tools_hash_from_deps : List ToolDependency → String
  tools_hash_from_deps deps =
      env.digest_prefix (join "," (sort_texts (map (λ d. d.name <> "@" <> d.version) deps)))

  -- buildCompositeVersion.
  unfoldable pub build_composite_version : AgentDeployment F → String
  build_composite_version a =
      let meta = a.spec.agent_meta in
      let prefix =
        or_default meta.prompt_version "default"
        <> "."
        <> or_default meta.model_version "default"
        <> "."
        <> extract_image_tag a.spec.container.image in
      if is_empty meta.tool_dependencies
      then prefix
      else prefix <> "." <> tools_hash_from_deps meta.tool_dependencies

abbrev pub insert_if_set : String → String → Dict String → Dict String
insert_if_set key value labels = if is_set value then insert key value labels else labels

module _ {F : Type 0} where
  -- buildLabels.
  unfoldable pub build_labels : AgentDeployment F → String → Dict String
  build_labels a composite_version =
      insert_if_set "agentroll.dev/model-version" a.spec.agent_meta.model_version (
        insert_if_set "agentroll.dev/prompt-version" a.spec.agent_meta.prompt_version (
          ("app.kubernetes.io/name", a.name)
          ∷ ("app.kubernetes.io/managed-by", "agentroll")
          ∷ ("agentroll.dev/composite-version", composite_version)
          ∷ []))
