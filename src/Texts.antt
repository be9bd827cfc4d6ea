-- ===== src/Texts.antt =====
-- Comma-separated lists in environment variables, as adapter/outbound-attachment-fetcher/src/fetcher.rs
-- and adapter/outbound-resolver/src/resolver.rs read them: `split(',')`, `trim` and the filter of empty
-- items. A text is a list of characters.
use Prim.Native.Char.{Char, code}
use Prim.Native.String.{[], ◌∷◌}
use catapulte.Common.{String, List, Bool, true, false, ◌&&◌, ◌||◌, leb, ◌==◌, if◌then◌else◌}
use catapulte.Common.{[] as nil, ◌∷◌ as cons}

-- `char::is_whitespace`, up to U+00A0 and the wide spaces of Unicode.
unfoldable pub is_whitespace : Char → Bool
is_whitespace c =
    let n = code c in
    (leb 9 n && leb n 13)
    || n == 32
    || n == 133
    || n == 160
    || n == 5760
    || (leb 8192 n && leb n 8202)
    || n == 8232
    || n == 8233
    || n == 8239
    || n == 8287
    || n == 12288

unfoldable pub trim_start : String → String
trim_start [] = []
trim_start (c ∷ s) = let rest = trim_start s in if is_whitespace c then rest else c ∷ s

abbrev is_empty : String → Bool
is_empty [] = true
is_empty (c ∷ s) = false

unfoldable pub trim_end : String → String
trim_end [] = []
trim_end (c ∷ s) =
    let rest = trim_end s in if is_whitespace c && is_empty rest then [] else c ∷ rest

-- `str::trim`
unfoldable pub trimmed : String → String
trimmed s = trim_end (trim_start s)

-- A character in front of the first part.
abbrev in_front : Char → List String → List String
in_front c nil = cons (c ∷ []) nil
in_front c (cons p ps) = cons (c ∷ p) ps

-- `split(',')`, which gives one empty part for an empty text.
unfoldable pub split_commas : String → List String
split_commas [] = cons [] nil
split_commas (c ∷ s) =
    let rest = split_commas s in if code c == 44 then cons [] rest else in_front c rest

-- The items of a comma-separated list, trimmed, without the empty ones.
unfoldable pub items : List String → List String
items nil = nil
items (cons s rest) =
    let others = items rest in if is_empty (trimmed s) then others else cons (trimmed s) others
