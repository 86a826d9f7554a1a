-- ===== src/Events/Text.antt =====
-- src/tts_studio/events.py, `_unsafe_text`: the regular expressions for absolute paths and secrets, each
-- as a test of what stands at a place of the text and of the character before it. Python's `\w` and
-- `str.casefold` follow Unicode's tables, and are parameters.
use Prim.Native.Char.{code}
use tts_studio.Base.{
  ℕ, ◌+◌, String, Bool, true, false, not, ◌&&◌, ◌||◌, Option, none, some, List, [], ◌∷◌, leb, ◌==◌,
  if◌then◌else◌,
}
use tts_studio.Base.Tests.{is_space}

pub record TextRules : Type 0 where
  pub is_word : ℕ → Bool
  pub casefold : String → String

codes : String → List ℕ
codes String.[] = []
codes (String.◌∷◌ c s) = code c ∷ codes s

is_letter : ℕ → Bool
is_letter c = (leb b'A' c && leb c b'Z') || (leb b'a' c && leb c b'z')

-- `[A-Za-z0-9]`.
is_alnum : ℕ → Bool
unfolding is_letter
is_alnum c = is_letter c || (leb b'0' c && leb c b'9')

abbrev backslash : ℕ
backslash = 92

is_slash : ℕ → Bool
is_slash c = c == b'/' || c == backslash

-- `re.search`: the pattern is tried at each place, with the character before it.
search : (Option ℕ → List ℕ → Bool) → Option ℕ → List ℕ → Bool
search p prev [] = p prev []
search p prev (c ∷ cs) = p prev (c ∷ cs) || search p (some c) cs

-- A lookbehind: no character before, or none of the class.
abbrev is_clear : (ℕ → Bool) → Option ℕ → Bool
is_clear class none = true
is_clear class (some c) = not (class c)

-- `(?<![A-Za-z0-9])[A-Za-z]:[\\/]`.
windows_path : Option ℕ → List ℕ → Bool
unfolding is_letter is_alnum is_slash
windows_path prev (c ∷ d ∷ e ∷ _) = is_clear is_alnum prev && is_letter c && d == b':' && is_slash e
windows_path prev _ = false

-- One character of a name: no separator and no space.
abbrev is_name : (ℕ → Bool) → List ℕ → Bool
is_name sep [] = false
is_name sep (c ∷ cs) = not (sep c) && not (is_space c)

-- A name, a separator, and the first character of another name.
two_names : (ℕ → Bool) → Bool → List ℕ → Bool
two_names sep seen [] = false
two_names sep seen (c ∷ cs) =
    if sep c then seen && is_name sep cs else not (is_space c) && two_names sep true cs

-- `\\\\[^\\/\s]+[\\/][^\\/\s]+`.
unc_path : Option ℕ → List ℕ → Bool
unfolding is_slash two_names
unc_path prev (c ∷ d ∷ cs) = c == backslash && d == backslash && two_names is_slash false cs
unc_path prev _ = false

is_forward : ℕ → Bool
is_forward c = c == b'/'

-- `(?<![A-Za-z0-9/:])//[^/\s]+/[^/\s]+`.
forward_unc_path : Option ℕ → List ℕ → Bool
unfolding is_alnum two_names is_forward
forward_unc_path prev (c ∷ d ∷ cs) =
    is_clear (λ p. is_alnum p || p == b'/' || p == b':') prev
    && c == b'/'
    && d == b'/'
    && two_names is_forward false cs
forward_unc_path prev _ = false

-- `(?<![A-Za-z0-9/])/(?!/)[^\s]+`.
posix_path : Option ℕ → List ℕ → Bool
unfolding is_alnum
posix_path prev (c ∷ d ∷ _) =
    is_clear (λ p. is_alnum p || p == b'/') prev && c == b'/' && not (d == b'/') && not (is_space d)
posix_path prev _ = false

-- `re.IGNORECASE`: the small letter that a character counts as. Beside the capitals these are the long
-- s, the Kelvin sign, and the dotted capital and the dotless small i.
fold : ℕ → ℕ
fold c =
    if leb b'A' c && leb c b'Z'
    then c + 32
    else if c == 383
    then b's'
    else if c == 8490
    then b'k'
    else if c == 304 || c == 305
    then b'i'
    else c

-- What follows the word at the start of the text, in any case.
after_word : List ℕ → List ℕ → Option (List ℕ)
unfolding fold
after_word [] cs = some cs
after_word (w ∷ ws) [] = none
after_word (w ∷ ws) (c ∷ cs) = let rest = after_word ws cs in if fold c == w then rest else none

abbrev has_slash : Option (List ℕ) → Bool
has_slash none = false
has_slash (some []) = false
has_slash (some (c ∷ _)) = c == b'/'

-- `(?:file|socket|unix):/{1,3}`.
uri_path : Option ℕ → List ℕ → Bool
unfolding after_word
uri_path prev cs =
    has_slash (after_word (b'f' ∷ b'i' ∷ b'l' ∷ b'e' ∷ b':' ∷ []) cs)
    || has_slash (after_word (b's' ∷ b'o' ∷ b'c' ∷ b'k' ∷ b'e' ∷ b't' ∷ b':' ∷ []) cs)
    || has_slash (after_word (b'u' ∷ b'n' ∷ b'i' ∷ b'x' ∷ b':' ∷ []) cs)

-- `\s+\S+`, where a space may have passed.
spaced_text : Bool → List ℕ → Bool
spaced_text seen [] = false
spaced_text seen (c ∷ cs) = if is_space c then spaced_text true cs else seen

abbrev has_text : Option (List ℕ) → Bool
has_text none = false
has_text (some cs) = spaced_text false cs

module _ (rules : TextRules) where
  -- `\bbearer\s+\S+`.
  bearer_secret : Option ℕ → List ℕ → Bool
  unfolding after_word spaced_text
  bearer_secret prev cs =
      is_clear rules.is_word prev
      && has_text (after_word (b'b' ∷ b'e' ∷ b'a' ∷ b'r' ∷ b'e' ∷ b'r' ∷ []) cs)

  -- `[A-Za-z0-9]{20,}\b`, after the given number of characters.
  token_run : ℕ → List ℕ → Bool
  unfolding is_alnum
  token_run n [] = leb 20 n
  token_run n (c ∷ cs) =
      let rest = token_run (n + 1) cs in
      if is_alnum c then rest else leb 20 n && not (rules.is_word c)

  -- `\bhf_[A-Za-z0-9]{20,}\b`.
  hf_secret : Option ℕ → List ℕ → Bool
  unfolding token_run
  hf_secret prev (c ∷ d ∷ e ∷ cs) =
      is_clear rules.is_word prev && c == b'h' && d == b'f' && e == b'_' && token_run 0 cs
  hf_secret prev _ = false

  -- A carriage return or a NUL.
  control : Option ℕ → List ℕ → Bool
  control prev [] = false
  control prev (c ∷ _) = c == 13 || c == 0

  -- `_unsafe_text`.
  unfoldable pub unsafe_text : String → Bool
  unfolding codes search windows_path unc_path forward_unc_path posix_path uri_path bearer_secret
      hf_secret control
  unsafe_text s =
      search windows_path none (codes s)
      || search unc_path none (codes s)
      || search forward_unc_path none (codes s)
      || search posix_path none (codes s)
      || search uri_path none (codes s)
      || search bearer_secret none (codes s)
      || search hf_secret none (codes s)
      || search control none (codes s)
