-- ===== src/FsStore/Key.antt =====
-- `is_dangerous_key` of adapter/outbound-attachment-fs/src/store.rs: keys that could name anything but an
-- entry of the root. A text is a list of characters.
use Prim.Native.Char.{code}
use Prim.Native.String.{[], ◌∷◌}
use catapulte.Common.{ℕ, String, Bool, false, ◌||◌, ◌==◌}

-- `starts_with('.')`
unfoldable pub starts_with_dot : String → Bool
starts_with_dot [] = false
starts_with_dot (c ∷ s) = code c == 46

-- `contains`, of the character with a code.
unfoldable pub has_char : ℕ → String → Bool
has_char n [] = false
has_char n (c ∷ s) = code c == n || has_char n s

unfoldable pub is_dangerous_key : String → Bool
is_dangerous_key key = starts_with_dot key || has_char 47 key || has_char 92 key
