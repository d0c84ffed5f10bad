-- ===== src/CustomResources/Paths.antt =====
-- mvp/internal/crd/crd.go: paths of custom resources, parsed back from their parts.
use Prim.Native.Char.{code}
use Prim.Native.String.append
use kubernetes_style_orchest.Prelude.{
  String, false, some, [], ◌∷◌, ◌≡◌, refl, concat, nat_beq, nat_beq_iff, strip_prefix, trim_prefix,
  ap, ◌∙◌,
}
use kubernetes_style_orchest.CustomResources.{split, parse_path, path_prefix}

-- No character of the text is a slash.
abbrev pub NoSlash : String → Type 0
NoSlash String.[] = Unit {0}
NoSlash (String.◌∷◌ c s) = (nat_beq (code c) 47 ≡ false) × NoSlash s

split-part : (a : String) → NoSlash a → split a ≡ a ∷ []
unfolding split
split-part String.[] h = refl
split-part (String.◌∷◌ c a) h = rw (h.0, split-part a h.1) refl

slash : (rest : String) → concat "/" rest ≡ String.◌∷◌ "/" rest
slash rest = append.cons "/" "" rest ∙ ap (String.◌∷◌ "/") (append.nil rest)

split-concat : (a rest : String) → NoSlash a → split (concat a (concat "/" rest)) ≡ a ∷ split rest
unfolding split
split-concat String.[] rest h = rw (append.nil (concat "/" rest), slash rest) refl
split-concat (String.◌∷◌ c a) rest h =
    rw (append.cons c a (concat "/" rest), h.0, split-concat a rest h.1) refl

abbrev pub collection_path : String → String → String → String
collection_path g v p = concat path_prefix (concat g (concat "/" (concat v (concat "/" p))))

strip_prefix-concat : (prefix s : String) → strip_prefix prefix (concat prefix s) ≡ some s
unfolding strip_prefix
strip_prefix-concat String.[] s = ap some (append.nil s)
strip_prefix-concat (String.◌∷◌ c p) s =
    rw (append.cons c p s, (nat_beq_iff (code c) (code c)).1 refl, strip_prefix-concat p s) refl

trim_prefix-path : (s : String) → trim_prefix path_prefix (concat path_prefix s) ≡ s
unfolding trim_prefix
trim_prefix-path s = rw (strip_prefix-concat path_prefix s, trim_prefix) refl

-- The path of a collection or of a resource parses to its parts, if no part contains a slash.
pub parse_path-join :
    (g v p n : String)
    → NoSlash g
    → NoSlash v
    → NoSlash p
    → NoSlash n
    → (parse_path (collection_path g v p)
        ≡ some (record { group = g; version = v; plural = p; name = "" }))
      × (parse_path (collection_path g v (concat p (concat "/" n)))
          ≡ some (record { group = g; version = v; plural = p; name = n }))
unfolding parse_path
parse_path-join g v p n hg hv hp hn = (
  rw
      (
        trim_prefix-path (concat g (concat "/" (concat v (concat "/" p)))),
        split-concat g _ hg,
        split-concat v _ hv,
        split-part p hp,
      )
      refl,
  rw
      (
        trim_prefix-path (concat g (concat "/" (concat v (concat "/" (concat p (concat "/" n)))))),
        split-concat g _ hg,
        split-concat v _ hv,
        split-concat p _ hp,
        split-part n hn,
      )
      refl,
)
