-- ===== src/Base/Trim.antt =====
-- Text as the list of its UTF-16 code units, with JavaScript's `trim`.
use mathlib.Core.Bool.{Bool, true, false, ◌||◌, ◌&&◌}
use mathlib.Core.List.{List, [], ◌∷◌, reverse}
use mathlib.Core.Option.{Option, none, some}
use Prim.Native.Nat.{ℕ}
use orbix_hub.Base.Tests.{leb, ◌==◌, if◌then◌else◌}

abbrev pub Text : Type 0
Text = List ℕ

-- `s === t`
unfoldable pub same_text : Text → Text → Bool
same_text [] [] = true
same_text (c ∷ s) (d ∷ t) = c == d && same_text s t
same_text _ _ = false

-- What ECMAScript's `trim` strips: white space and line terminators.
pub is_space : ℕ → Bool
is_space c =
    (leb 9 c && leb c 13)
    || c == 32
    || c == 160
    || c == 5760
    || (leb 8192 c && leb c 8202)
    || c == 8232
    || c == 8233
    || c == 8239
    || c == 8287
    || c == 12288
    || c == 65279

trim_start : Text → Text
unfolding is_space
trim_start [] = []
trim_start (c ∷ cs) = if is_space c then trim_start cs else c ∷ cs

unfoldable pub trim : Text → Text
unfolding trim_start
trim t = reverse (trim_start (reverse (trim_start t)))

-- `t.trim() || null`
unfoldable pub trim_or_null : Text → Option Text
unfolding trim
trim_or_null t = elim (trim t) [ [] ↦ none | c ∷ cs ↦ some (c ∷ cs) ]

-- `t?.trim() || null`
abbrev pub trimmed : Option Text → Option Text
trimmed none = none
trimmed (some t) = trim_or_null t
