-- ===== src/Registry/Paths.antt =====
-- src/tts_studio/generation/registry.py, `_managed_audio_path`, with what it uses of
-- `PurePosixPath`: the parts of a relative path and `as_posix`.
use Prim.Native.Char.{Char, code}
use tts_studio.Base.{
  ℕ, String, Bool, true, false, not, ◌&&◌, ◌||◌, List, [], ◌∷◌, str_eq, ◌==◌, if◌then◌else◌,
}
use tts_studio.Base.Exec.{Result, ok, err, invalid_registry_data}

abbrev slash : ℕ
slash = b'/'

abbrev pub backslash : ℕ
backslash = 92

-- No character of the text has the code.
unfoldable pub lacks : ℕ → String → Bool
lacks k String.[] = true
lacks k (String.◌∷◌ c s) = not (code c == k) && lacks k s

push : Char → List String → List String
push c [] = String.◌∷◌ c String.[] ∷ []
push c (p ∷ ps) = String.◌∷◌ c p ∷ ps

-- `value.split("/")`.
pub split : String → List String
unfolding push
split String.[] = String.[] ∷ []
split (String.◌∷◌ c s) = if code c == slash then String.[] ∷ split s else push c (split s)

-- `PurePosixPath` drops the empty parts and the dots.
is_part : String → Bool
is_part p = not (str_eq p "") && not (str_eq p ".")

keep_parts : List String → List String
keep_parts [] = []
keep_parts (p ∷ ps) = let rest = keep_parts ps in if is_part p then p ∷ rest else rest

-- `PurePosixPath(value).parts` of a relative path.
unfoldable pub parts : String → List String
unfolding is_part keep_parts split
parts s = keep_parts (split s)

pub glue : String → String → String
glue String.[] t = t
glue (String.◌∷◌ c s) t = String.◌∷◌ c (glue s t)

-- `as_posix()`: the parts joined by slashes.
unfoldable pub join : List String → String
unfolding glue
join [] = String.[]
join (p ∷ []) = p
join (p ∷ q ∷ ps) = glue p (glue "/" (join (q ∷ ps)))

unfoldable pub starts_with_slash : String → Bool
starts_with_slash String.[] = false
starts_with_slash (String.◌∷◌ c s) = code c == slash

unfoldable pub has_dot_part : List String → Bool
has_dot_part [] = false
has_dot_part (p ∷ ps) = str_eq p "" || str_eq p "." || str_eq p ".." || has_dot_part ps

-- The first part is `audio`, and something is below it.
is_below_audio : List String → Bool
is_below_audio (p ∷ q ∷ ps) = str_eq p "audio"
is_below_audio _ = false

unfoldable pub managed_audio_path : String → Result String
unfolding parts join glue starts_with_slash has_dot_part is_below_audio lacks
managed_audio_path s =
    if str_eq s ""
      || not (lacks backslash s)
      || starts_with_slash s
      || not (is_below_audio (parts s))
      || has_dot_part (parts s)
    then err invalid_registry_data
    else ok (join (parts s))
