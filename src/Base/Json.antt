-- ===== src/Base/Json.antt =====
-- JSON values as `json.dumps` and `json.loads` exchange them. A float is its IEEE 754 bit pattern,
-- with the tests that the source makes of floats.
use tts_studio.Base.Tests.{if◌then◌else◌, leb, ◌==◌}
use Prim.Native.Nat.{ℕ, ◌*◌, ◌/◌, ◌%◌, ◌^◌}
use Prim.Native.String.{String}
use mathlib.Core.Bool.{Bool, true, not, ◌&&◌, ◌||◌}
use mathlib.Core.Option.{Option, none, some}
use text.Mathlib.Text.{◌==◌ as str_eq}
use tts_studio.Base.Int.{ℤ}

-- The 64 bits of a float.
abbrev pub Double : Type 0
Double = ℕ

-- `math.isfinite`: the exponent is not all ones.
unfoldable pub is_finite : Double → Bool
is_finite x = not (x / 2 ^ 52 % 2048 == 2047)

-- `0 <= value <= 1` of a finite float: between the patterns of 0.0 and 1.0, or -0.0.
unfoldable pub is_unit_interval : Double → Bool
is_unit_interval x = leb x (1023 * 2 ^ 52) || x == 2 ^ 63

mutual
  pub data Json : Type 0 where
    null : Json
    bool : Bool → Json
    int : ℤ → Json
    float : Double → Json
    string : String → Json
    array : Items → Json
    object : Fields → Json

  pub data Items : Type 0 where
    nil : Items
    cons : Json → Items → Items

  pub data Fields : Type 0 where
    end : Fields
    field : String → Json → Fields → Fields

-- `value.get(key)` of a dictionary.
unfoldable pub get : String → Fields → Option Json
get k end = none
get k (field j v r) = if str_eq j k then some v else get k r

-- `json.dumps(…, allow_nan=False)` raises on a float that is not finite.
unfoldable mutual
  pub finite_json : Json → Bool
  finite_json null = true
  finite_json (bool b) = true
  finite_json (int n) = true
  finite_json (float x) = is_finite x
  finite_json (string s) = true
  finite_json (array xs) = finite_items xs
  finite_json (object fs) = finite_fields fs

  pub finite_items : Items → Bool
  finite_items nil = true
  finite_items (cons x xs) = finite_json x && finite_items xs

  pub finite_fields : Fields → Bool
  finite_fields end = true
  finite_fields (field k v fs) = finite_json v && finite_fields fs
