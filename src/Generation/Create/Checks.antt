-- ===== src/Generation/Create/Checks.antt =====
-- src/tts_studio/generation/service.py, `create`: a request, what it is answered, and its checks.
use Prim.Native.String.{count}
use tts_studio.Base.{
  ℕ, ◌+◌, ◌-◌, ◌*◌, ◌^◌, String, Bool, true, false, not, ◌&&◌, ◌||◌, Option, none, some, List, ltb,
  leb, ◌==◌, str_eq, value_or, has_nul, is_blank, if◌then◌else◌,
}
use tts_studio.Base.Exec.{
  Error, Result, ok, err, Exec, generation_request, generation_reference_not_found,
  record_not_found, invalid_reference_transition, reference_recovery_required,
}
use tts_studio.Base.Json.{Double, Json, string, is_finite, get}
use tts_studio.Registry.Domain.{SynthesisOptions}
use tts_studio.Registry.Jobs.{count_some}
use tts_studio.Models.Domain.{ModelRow}
use tts_studio.Workers.Domain.{WorkerCapabilities}
use tts_studio.Generation.State.{Core, ReferenceHandle, Answer}
use tts_studio.Generation.Run.{SavedVoice}

-- The arguments of `create`; the fresh ids are those of `uuid4`.
pub record Request : Type 0 where
  pub model_id : String
  pub voice_id : Option String
  pub reference_id : Option String
  pub saved_voice_id : Option String
  pub text : String
  pub retain_artifact : Option Bool
  pub correlation_id : Option String
  pub options : Option SynthesisOptions
  pub retry_of : Option String
  pub fresh_job : String
  pub fresh_correlation : String

-- The answers of a request. `retention` is the default provider's, if there is one; a service that is
-- not configured is `none`; `recording` is the model of the reference.
pub record Answers : Type 0 where
  pub retention : Option Bool
  pub acquire : Answer WorkerCapabilities
  pub load : Answer (Unit {0})
  pub unload : Answer (Unit {0})
  pub saved_voice : Option (Result SavedVoice)
  pub recording : Option (Result String)
  pub claim : Result ReferenceHandle
  pub saved_again : Result SavedVoice
  pub voices : Answer (List String)
  pub close_lease : Answer (Unit {0})
  pub release : Result (Unit {0})
  pub submit : Result (Unit {0})

-- `resolve_retention`.
unfoldable pub resolve_retention : Option Bool → Option Bool → Bool
resolve_retention (some asked) preset = asked
resolve_retention none (some preset) = preset
resolve_retention none none = true

-- `MAX_SYNTHESIS_TEXT_CHARS`.
abbrev max_text : ℕ
max_text = 10000

-- `_validate_text`.
unfoldable pub validate_text : String → Result (Unit {0})
validate_text s =
    if ltb max_text (count s) || is_blank s || has_nul s then err generation_request else ok tt

-- The float is not negative, or is -0.0; its distance from 0.0.
abbrev sign_bit : ℕ
sign_bit = 2 ^ 63

-- `0.25 <= value <= 4.0`, `-1.0 <= value <= 1.0` and `0.0 <= value <= 2.0` of a finite float.
abbrev is_speed : Double → Bool
is_speed x = leb (1021 * 2 ^ 52) x && leb x (1025 * 2 ^ 52)

abbrev is_pitch : Double → Bool
is_pitch x = leb x (1023 * 2 ^ 52) || (leb sign_bit x && leb (x - sign_bit) (1023 * 2 ^ 52))

abbrev is_volume : Double → Bool
is_volume x = leb x (1024 * 2 ^ 52) || x == sign_bit

abbrev is_option : (Double → Bool) → Option Double → Bool
is_option test none = true
is_option test (some x) = is_finite x && test x

-- `_validate_options`.
unfoldable pub validate_options : Option SynthesisOptions → Result (Unit {0})
validate_options none = ok tt
validate_options (some o) =
    if is_option is_speed o.speed && is_option is_pitch o.pitch && is_option is_volume o.volume
    then ok tt
    else err generation_request

abbrev is_empty : Option String → Bool
is_empty none = false
is_empty (some s) = str_eq s ""

-- `_validate_source`.
unfoldable pub validate_source : Option String → Option String → Option String → Result (Unit {0})
validate_source v r s =
    if is_empty v
      || is_empty r
      || is_empty s
      || not (count_some v + count_some r + count_some s == 1)
    then err generation_request
    else ok tt

-- `value.split("@", maxsplit=1)[0]`.
before_at : String → String
before_at String.[] = String.[]
before_at (String.◌∷◌ c s) =
    let rest = before_at s in
    if Prim.Native.Char.code c == b'@' then String.[] else String.◌∷◌ c rest

-- `_engine_id`.
abbrev engine_of : Option Json → Option String
engine_of (some (string s)) = if str_eq s "" then none else some s
engine_of _ = none

unfoldable pub engine_id : ModelRow → String
unfolding before_at
engine_id m =
    value_or (before_at m.engine_installation_id)
      (engine_of (get "engine_id" m.compatibility_evidence))

-- `try: … finally: …`, whose clean-up raises over what the block has raised.
unfoldable pub ensuring : {A : Type 0} → Exec Core A → Exec Core (Unit {0}) → Exec Core A
ensuring m clean c =
    let r = m c in let q = clean r.1 in elim q.0 [ ok u ↦ (r.0, q.1) | err e ↦ (err e, q.1) ]

abbrev as_reference : Error → Error
as_reference record_not_found = generation_reference_not_found
as_reference e = e

abbrev pub as_claim : Error → Error
as_claim record_not_found = generation_reference_not_found
as_claim invalid_reference_transition = generation_reference_not_found
as_claim reference_recovery_required = generation_request
as_claim e = e

abbrev pub renamed : {A : Type 0} → (Error → Error) → Result A → Result A
renamed f (ok a) = ok a
renamed f (err e) = err (f e)

abbrev pub saved_handle : SavedVoice → ReferenceHandle
saved_handle v = record {
  reference_id = v.id;
  relative_path = v.relative_path;
  transcript = v.transcript;
  temporary = false;
}

-- The model that the reference or the saved Voice is pinned to.
unfoldable pub pinned_model : Answers → Option String → Result String
pinned_model a (some k) = elim a.saved_voice [
  | none ↦ err generation_request
  | some (err e) ↦ err generation_reference_not_found
  | some (ok v) ↦ ok v.model_id
]
pinned_model a none = elim a.recording [
  | none ↦ err generation_request
  | some r ↦ renamed as_reference r
]

-- `correlation_id or str(uuid4())`.
abbrev pub or_fresh_text : String → Option String → String
or_fresh_text fresh none = fresh
or_fresh_text fresh (some s) = if str_eq s "" then fresh else s
