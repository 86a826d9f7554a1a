-- ===== src/Models/Installations.antt =====
-- src/tts_studio/models/registry.py: the methods of `ModelRegistry` that read and scale a model.
use tts_studio.Base.{
  String, Bool, true, false, not, ◌&&◌, Option, none, some, List, leb, str_eq, if◌then◌else◌,
}
use tts_studio.Base.Exec.{
  Result, ok, err, Exec, pure, lift, required, raise_if, modify, transaction, read, ◌>>=◌, ◌>>◌,
  record_not_found, runtime_error, invalid_registry_data, type_error, value_error,
}
use tts_studio.Base.Int.{ℤ, pos, to_nat}
use tts_studio.Base.Json.{
  Double, Json, bool, int, float, string, Fields, end, field, get, finite_fields,
}
use tts_studio.Base.Table.{update}
use tts_studio.Models.Domain.{ModelRow, Db, model_key, model_at}

abbrev pub set_models : (List ModelRow → List ModelRow) → Exec Db Unit
set_models f = modify λ db. record db { models = f db.models }

abbrev pub find_model : String → Exec Db ModelRow
find_model k db = required record_not_found (model_at k db) db

abbrev pub model_read_back : String → Exec Db ModelRow
model_read_back k db = required runtime_error (model_at k db) db

-- What `int` makes of a float and of a text.
pub record Numbers : Type 0 where
  pub of_float : Double → ℤ
  pub of_text : String → Option ℤ

abbrev pub bool_number : Bool → ℤ
bool_number true = pos 1
bool_number false = pos 0

-- `int(value)`, where a missing value counts as 1.
abbrev pub int_of : Numbers → Option Json → Result ℤ
int_of numbers none = ok (pos 1)
int_of numbers (some (int z)) = ok z
int_of numbers (some (bool b)) = ok (bool_number b)
int_of numbers (some (float x)) = ok (numbers.of_float x)
int_of numbers (some (string s)) = elim (numbers.of_text s) [
  | none ↦ err value_error
  | some z ↦ ok z
]
int_of numbers (some _) = err type_error

-- `_model_installation`: the row, with the number of replicas that its summary asks for.
pub record ModelInstallation : Type 0 where
  pub row : ModelRow
  pub desired_replicas : ℤ

abbrev pub installation : Numbers → ModelRow → Exec Db ModelInstallation
installation numbers m = do
  count ← lift (int_of numbers (get "desired_replicas" m.replica_summary))
  pure (record { row = m; desired_replicas = count })

-- `summary[key] = value`: the value of a key that is there is replaced.
unfoldable pub put : String → Json → Fields → Fields
put k v end = field k v end
put k v (field j w r) = let rest = put k v r in if str_eq j k then field j v r else field j w rest

module _ (numbers : Numbers) where
  -- A row is decoded after its transaction has ended.
  unfoldable pub get_model : String → Exec Db ModelInstallation
  get_model k = do m ← read (find_model k); installation numbers m

  abbrev pub with_replicas : String → Fields → ModelRow → ModelRow
  with_replicas now summary m = record m { replica_summary = summary; updated_at = now }

  unfoldable pub update_replica_summary : String → String → Fields → Exec Db ModelInstallation
  update_replica_summary now k summary = do
    raise_if (not (finite_fields summary)) invalid_registry_data
    m ← transaction do
      find_model k
      set_models (update model_key k (with_replicas now summary))
      model_read_back k
    installation numbers m

  abbrev pub is_replica_count : ℤ → Bool
  is_replica_count z = elim (to_nat z) [ none ↦ false | some n ↦ leb 1 n && leb n 8 ]

  unfoldable pub set_desired_replicas : String → String → ℤ → Exec Db ModelInstallation
  unfolding put
  set_desired_replicas now k count = do
    raise_if (not (is_replica_count count)) invalid_registry_data
    m ← transaction do
      current ← find_model k
      let summary = put "desired_replicas" (int count) current.replica_summary
      raise_if (not (finite_fields summary)) invalid_registry_data
      set_models (update model_key k (with_replicas now summary))
      model_read_back k
    installation numbers m
