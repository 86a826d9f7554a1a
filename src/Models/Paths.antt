-- ===== src/Models/Paths.antt =====
-- src/tts_studio/models/registry.py, `_managed_relative_path`.
use Prim.Native.Char.{code}
use tts_studio.Base.{
  String, Bool, true, false, not, ◌&&◌, ◌||◌, List, [], ◌∷◌, str_eq, ◌==◌, if◌then◌else◌,
}
use tts_studio.Base.Exec.{Result, ok, err, invalid_registry_data, index_error}
use tts_studio.Registry.Paths.{backslash, lacks, parts, join, starts_with_slash, has_dot_part}

-- `"//" in value`.
pub has_double_slash : String → Bool
has_double_slash String.[] = false
has_double_slash (String.◌∷◌ c s) = (code c == b'/' && starts_with_slash s) || has_double_slash s

abbrev is_empty : List String → Bool
is_empty [] = true
is_empty (p ∷ ps) = false

-- The test of the parts: `path.parts[0]` of no part at all, as of `.`, raises an IndexError.
abbrev pub check_parts : String → List String → Result String
check_parts top [] = err index_error
check_parts top (p ∷ ps) =
    if not (str_eq p top) || is_empty ps || has_dot_part (p ∷ ps)
    then err invalid_registry_data
    else ok (join (p ∷ ps))

unfoldable pub managed_relative_path : String → String → Result String
unfolding has_double_slash
managed_relative_path s top =
    if str_eq s "" || not (lacks backslash s) || starts_with_slash s || has_double_slash s
    then err invalid_registry_data
    else check_parts top (parts s)
