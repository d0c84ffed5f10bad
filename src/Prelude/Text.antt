-- ===== src/Prelude/Text.antt =====
-- What the program uses of Go's package `strings`, and the order of Go's strings.
use Prim.Native.Char.{Char, code}
use Prim.Native.String.{String, ◌++◌ as str_append, compare as str_compare}
use mathlib.Core.Bool.{Bool, ◌&&◌, ◌||◌}
use mathlib.Core.Option
use mathlib.Core.Option.{Option, none, some}
use text.Mathlib.TextLemmas.{append-eq-nil_iff, append-ne-nil_of_right_ne-nil, cons-ne-nil}
use mathlib.Core.Logic.{◌≢◌}
use text.Mathlib.Text.{◌==◌ as str_eq, is_lt}
use kubernetes_style_orchest.Prelude.Tests.{nat_beq, leb, if◌then◌else◌}

-- `s + t`
abbrev pub concat : String → String → String
concat s t = str_append s t

-- A text that ends in a text that is not empty is not empty.
pub concat_filled : (s : String) (c : Char) (t : String) → concat s (String.◌∷◌ c t) ≢ ""
concat_filled s c t = append-ne-nil_of_right_ne-nil s (cons-ne-nil c t)

-- A text in whose middle stands a character is not empty.
pub concat_filled_between :
    (s : String) (c : Char) (t u : String) → concat s (concat (String.◌∷◌ c t) u) ≢ ""
concat_filled_between s c t u =
    append-ne-nil_of_right_ne-nil s (λ e. cons-ne-nil c t (append-eq-nil_iff.0 e).0)

-- `s < t`
abbrev pub str_ltb : String → String → Bool
str_ltb s t = is_lt (str_compare s t)

-- `strings.HasPrefix(s, prefix)` together with `s[len(prefix):]`
unfoldable pub strip_prefix : String → String → Option String
strip_prefix String.[] s = some s
strip_prefix (String.◌∷◌ c p) String.[] = none
strip_prefix (String.◌∷◌ c p) (String.◌∷◌ d s) =
    let rest = strip_prefix p s in if nat_beq (code c) (code d) then rest else none

-- `strings.TrimPrefix`
unfoldable pub trim_prefix : String → String → String
unfolding strip_prefix
trim_prefix prefix s = elim (strip_prefix prefix s) [ none ↦ s | some rest ↦ rest ]

-- `strings.HasSuffix(s, suffix)` together with `strings.TrimSuffix(s, suffix)`
unfoldable pub strip_suffix : String → String → Option String
strip_suffix suffix String.[] = if str_eq "" suffix then some "" else none
strip_suffix suffix (String.◌∷◌ c s) =
    let rest = strip_suffix suffix s in
    if str_eq (String.◌∷◌ c s) suffix then some "" else Option.map (String.◌∷◌ c) rest

-- `unicode.IsSpace`
abbrev pub is_space : Char → Bool
is_space ch =
    let c = code ch in
    (leb 9 c && leb c 13)
    || nat_beq c 32
    || nat_beq c 0x85
    || nat_beq c 0xa0
    || nat_beq c 0x1680
    || (leb 0x2000 c && leb c 0x200a)
    || nat_beq c 0x2028
    || nat_beq c 0x2029
    || nat_beq c 0x202f
    || nat_beq c 0x205f
    || nat_beq c 0x3000

unfoldable pub trim_left : String → String
trim_left String.[] = String.[]
trim_left (String.◌∷◌ c s) = let rest = trim_left s in if is_space c then rest else String.◌∷◌ c s

unfoldable pub trim_right : String → String
trim_right String.[] = String.[]
trim_right (String.◌∷◌ c s) =
    let rest = trim_right s in if is_space c && str_eq rest "" then "" else String.◌∷◌ c rest

-- `strings.TrimSpace(s)`
unfoldable pub trim_space : String → String
unfolding trim_left trim_right
trim_space s = trim_right (trim_left s)
