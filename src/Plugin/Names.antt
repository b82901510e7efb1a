-- ===== src/Plugin/Names.antt =====
-- The names in a plugin configuration, and the tests on texts of `PluginConfig::validate`
-- (babel_api/src/plugin_config.rs).
use blockvisor.Common.{
  ℕ, zero, suc, ◌+◌, Bool, true, false, not, ◌&&◌, ◌||◌, none, some, List, [], ◌∷◌, leb, ◌==◌,
}
use Prim.Native.Char.{code}
use Prim.Native.String.{String, len}
use text.Mathlib.Text
use text.Mathlib.Text.{starts_with, char_at?, find?}

abbrev pub mem : String → List String → Bool
mem name [] = false
mem name (other ∷ names) = Text.◌==◌ other name || mem name names

abbrev pub contains : String → String → Bool
contains text part = elim (find? text part) [ none ↦ false | some at ↦ true ]

-- `is_ascii_alphanumeric`, or a hyphen or an underscore.
abbrev pub is_key_char : ℕ → Bool
is_key_char c =
    (leb 48 c && leb c 57)
    || (leb 65 c && leb c 90)
    || (leb 97 c && leb c 122)
    || (c == 45)
    || (c == 95)

-- All characters, from a position on; those that pass take one byte each.
abbrev pub key_chars : ℕ → String → ℕ → Bool
key_chars zero text at = true
key_chars (suc fuel) text at = elim (char_at? text at) [
  | none ↦ true
  | some c ↦ is_key_char (code c) && key_chars fuel text (at + 1)
]

abbrev pub is_store_key : String → Bool
is_store_key key = not (Text.◌==◌ key "") && key_chars (len key) key 0

abbrev pub is_data_dir : String → Bool
is_data_dir dir = not (Text.◌==◌ dir "") && not (starts_with dir "/") && not (contains dir "..")
