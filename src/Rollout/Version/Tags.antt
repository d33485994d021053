-- ===== src/Rollout/Version/Tags.antt =====
-- extractImageTag on the images that it is made for.
use Prim.Native.Char.{Char, code}
use Prim.Native.String.append as append
use agentroll.Prelude.{◌≡◌, refl, ◌∙◌, ap, false, String, ◌<>◌, leb, ◌&&◌}
use agentroll.Rollout.Version.{passed, found, scan_char, scan_back, tag_of, extract_image_tag}

-- A text without a ':' and without a '/'.
abbrev pub IsPlain : String → Type 0
IsPlain String.[] = Unit
IsPlain (String.◌∷◌ c s) =
    ((leb 58 (code c) && leb (code c) 58) ≡ false)
    × ((leb 47 (code c) && leb (code c) 47) ≡ false)
    × IsPlain s

scan_back_plain : (tag : String) → IsPlain tag → scan_back tag ≡ passed tag
unfolding scan_back
scan_back_plain String.[] p = refl
scan_back_plain (String.◌∷◌ c s) (p, q, r) = rw (scan_back_plain s r, p, q) refl

scan_back_found :
    (colon : Char) (prefix tag : String)
    → code colon ≡ 58
    → IsPlain tag
    → scan_back (prefix <> String.◌∷◌ colon tag) ≡ found tag
unfolding scan_back
scan_back_found colon String.[] tag e plain =
    ap scan_back (append.nil (String.◌∷◌ colon tag))
    ∙ ap (λ r. scan_char colon r) (scan_back_plain tag plain)
    ∙ rw e refl
scan_back_found colon (String.◌∷◌ c s) tag e plain =
    ap scan_back (append.cons c s (String.◌∷◌ colon tag))
    ∙ ap (λ r. scan_char c r) (scan_back_found colon s tag e plain)

-- The tag of an image is what stands after its last colon (the character 58): a tag without ':' and '/'
-- comes back from any image that ends in it, whatever stands before, a registry with a port included.
pub extract_image_tag_lem :
    (colon : Char) (prefix tag : String)
    → code colon ≡ 58
    → IsPlain tag
    → extract_image_tag (prefix <> String.◌∷◌ colon tag) ≡ tag
unfolding extract_image_tag
extract_image_tag_lem colon prefix tag e plain =
    ap tag_of (scan_back_found colon prefix tag e plain)
