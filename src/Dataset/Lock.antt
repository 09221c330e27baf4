-- ===== src/Dataset/Lock.antt =====
-- The frozen record of a dataset version and the hash of its rows
-- (src/robolineage_contracts/pipeline/dataset.py).
use Prim.Native.Char.{code}
use robolineage.Prelude.{
  ℕ, suc, String, Bool, true, not, ◌&&◌, ◌||◌, Option, none, some, List, [], ◌∷◌, any, length, leb,
  ◌==◌, str_eq, if◌then◌else◌,
}
use robolineage.Prelude.Result.{Result, ok, err}
use robolineage.Prelude.Sort.{sort_by}

pub data DatasetError : Type 0 where
  value_error key_error file_not_found file_exists : DatasetError

-- A row of a manifest: its "rollout_id", where it has one, and the rest of the JSON object.
pub record Entry : Type 0 where
  pub rollout_id : Option String
  pub content : String

pub record DatasetLock : Type 0 where
  pub version_id : String
  pub created_at : String
  pub base_version_id : Option String
  pub included_rollout_ids : List String
  pub total_samples : ℕ
  pub manifest_sha256 : String
  pub changelog : String

-- set(ids): each text once.
unfoldable pub to_set : List String → List String
to_set [] = []
to_set (s ∷ l) = let rest = to_set l in if any (λ t. str_eq s t) l then rest else s ∷ rest

-- Every character is one of 0123456789abcdef.
unfoldable pub all_hex : String → Bool
all_hex String.[] = true
all_hex (String.◌∷◌ c s) =
    ((leb b'0' (code c) && leb (code c) b'9') || (leb b'a' (code c) && leb (code c) b'f'))
    && all_hex s

unfoldable pub count_chars : String → ℕ
count_chars String.[] = 0
count_chars (String.◌∷◌ c s) = suc (count_chars s)

unfoldable pub is_sha256 : String → Bool
unfolding all_hex count_chars
is_sha256 s = (count_chars s == 64) && all_hex s

-- DatasetLock(…): the record, checked by __post_init__. A negative total_samples has no model.
unfoldable pub create_lock : DatasetLock → Result DatasetError DatasetLock
unfolding to_set is_sha256
create_lock lock =
    let ids = lock.included_rollout_ids in
    if not (length (to_set ids) == length ids)
    then err value_error
    else if not (is_sha256 lock.manifest_sha256)
    then err value_error
    else ok lock

-- entry.get("rollout_id", "")
abbrev pub or_empty : Option String → String
or_empty none = ""
or_empty (some s) = s

abbrev pub entry_key : Entry → String
entry_key e = or_empty e.rollout_id

-- The digest of the rows' canonical JSON is the library's.
unfoldable pub compute_manifest_sha256 : (List Entry → String) → List Entry → String
compute_manifest_sha256 digest entries = digest (sort_by entry_key entries)
