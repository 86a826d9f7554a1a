-- ===== src/Workers/Capabilities.antt =====
-- src/tts_studio/workers/supervisor.py: what a Worker says of itself when it is described.
use Prim.Native.Char.{code}
use Prim.Native.String.{count}
use tts_studio.Base.{
  ℕ, String, Bool, true, false, not, ◌&&◌, ◌||◌, Option, none, some, List, [], ◌∷◌, ltb, leb, ◌==◌,
  str_eq, if◌then◌else◌,
}
use tts_studio.Base.Exec.{Result, ok, err, value_error}
use tts_studio.Workers.Domain.{
  AlignmentCapability, WorkerCapabilities, ProtocolVersion, Capability, DescribeResponse, contains,
}

abbrev pub protocol_major : ℕ
protocol_major = 1

abbrev pub protocol_max_minor : ℕ
protocol_max_minor = 1

-- `_protocol_compatible`; the least minor version is 0.
unfoldable pub protocol_compatible : ProtocolVersion → Bool
protocol_compatible p = p.major == protocol_major && leb p.minor protocol_max_minor

abbrev is_lower : ℕ → Bool
is_lower c = leb b'a' c && leb c b'z'

pub is_name_rest : String → Bool
is_name_rest String.[] = true
is_name_rest (String.◌∷◌ c s) =
    (is_lower (code c) || (leb b'0' (code c) && leb (code c) b'9') || code c == b'_')
    && is_name_rest s

-- `_CAPABILITY_NAME_RE.fullmatch`.
unfoldable pub is_capability_name : String → Bool
unfolding is_name_rest
is_capability_name String.[] = false
is_capability_name (String.◌∷◌ c s) = is_lower (code c) && is_name_rest s && leb (count s) 63

unfoldable pub names : List Capability → List String
names [] = []
names (c ∷ cs) = c.name ∷ names cs

unfoldable pub are_names : List String → Bool
unfolding is_capability_name
are_names [] = true
are_names (n ∷ ns) = is_capability_name n && are_names ns

-- `len(values) != len(set(values))`.
unfoldable pub has_duplicate : List String → Bool
has_duplicate [] = false
has_duplicate (s ∷ ss) = contains s ss || has_duplicate ss

-- The names of the capabilities that are supported.
unfoldable pub supported_names : List Capability → List String
supported_names [] = []
supported_names (c ∷ cs) =
    let rest = supported_names cs in if c.supported then c.name ∷ rest else rest

abbrev is_nil : List String → Bool
is_nil [] = true
is_nil (s ∷ ss) = false

abbrev is_alignment_valid : AlignmentCapability → Bool
is_alignment_valid a =
    not (is_nil a.units)
    && not (contains "" a.units)
    && not (has_duplicate a.units)
    && not (contains "" a.languages)
    && not (has_duplicate a.languages)
    && not (str_eq a.aligner "")

-- The typed metadata must be there exactly when the capability is.
abbrev pub is_alignment_consistent : Bool → Option AlignmentCapability → Bool
is_alignment_consistent supported none = not supported
is_alignment_consistent supported (some a) = supported && is_alignment_valid a

-- `_worker_capabilities`. The set of the supported names is a list.
unfoldable pub worker_capabilities : DescribeResponse → Result WorkerCapabilities
unfolding names are_names has_duplicate supported_names contains
worker_capabilities d =
    let supported = supported_names d.capabilities in
    if str_eq d.engine_id ""
      || str_eq d.engine_version ""
      || not (ltb 0 d.max_concurrency)
      || not (are_names (names d.capabilities))
      || has_duplicate (names d.capabilities)
      || not (is_alignment_consistent (contains "alignment" supported) d.alignment)
    then err value_error
    else ok (record {
      engine_id = d.engine_id;
      engine_version = d.engine_version;
      supported = supported;
      max_concurrency = d.max_concurrency;
      alignment = d.alignment;
    })
