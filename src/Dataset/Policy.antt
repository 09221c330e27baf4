-- ===== src/Dataset/Policy.antt =====
-- The metadata of trained policies and the dataset that each was trained on
-- (src/robolineage_contracts/pipeline/policy.py, src/robolineage_train/policy_meta.py). A success
-- rate is a number of some type with the test that it lies between 0 and 1.
pub mod Lineage
use Prim.Native.Char.{Char, code}
use Prim.Native.String
use robolineage.Prelude.{
  ℕ, ◌-◌, String, Bool, true, false, not, ◌&&◌, ◌||◌, Option, none, some, List, [], ◌∷◌, ◌==◌,
  str_eq, if◌then◌else◌,
}
use robolineage.Prelude.Int.{ℤ, is_negative}
use robolineage.Prelude.Result.{Result, ok, err}
use robolineage.Prelude.Dict.{Dict, get, put}
use robolineage.Prelude.Exec.{Exec}
use robolineage.Dataset.Lock.{DatasetError, value_error, file_exists, DatasetLock}
use robolineage.Dataset.Updater.{file_in, is_there}
use robolineage.Dataset.Version.{is_digit}

pub data GatingResult : Type 0 where
  pass fail pending : GatingResult

pub record PolicyMeta (Rate : Type 0) : Type 0 where
  pub version_id : String
  pub trained_on_dataset : String
  pub architecture : String
  pub training_steps : ℤ
  pub created_at : String
  pub eval_success_rate : Option Rate
  pub deployed : Bool
  pub deployment_gating_result : GatingResult
  pub framework_name : Option String
  pub framework_type : Option String
  pub adapter_version : Option String
  pub checkpoint_path : Option String
  pub training_result_path : Option String
  pub eval_result_path : Option String
  pub robolineage_context_path : Option String

-- ^\d+(\.\d+)*$ with `dots` dots to come, after a digit where `digits` says so. A line break may
-- follow, as in the pattern.
unfoldable pub matches_numbers : ℕ → Bool → String → Bool
matches_numbers dots digits String.[] = digits && (dots == 0)
matches_numbers dots digits (String.◌∷◌ c s) =
    let more = matches_numbers dots true s in
    let next = matches_numbers (dots - 1) false s in
    if is_digit c
    then more
    else if code c == b'.'
    then digits && not (dots == 0) && next
    else (code c == 10) && digits && (dots == 0) && str_eq s ""

unfoldable pub is_semver : String → Bool
unfolding matches_numbers
is_semver s = matches_numbers 2 false s

abbrev pub is_pass : GatingResult → Bool
is_pass pass = true
is_pass fail = false
is_pass pending = false

module _ {Rate : Type 0} (in_unit : Rate → Bool) where
  abbrev pub rate_fits : Option Rate → Bool
  rate_fits none = true
  rate_fits (some r) = in_unit r

  -- PolicyMeta(…) with the checks of __post_init__; the type holds the three gating results only.
  unfoldable pub create_meta : PolicyMeta Rate → Result DatasetError (PolicyMeta Rate)
  unfolding is_semver
  create_meta m =
      if not (is_semver m.version_id)
      then err value_error
      else if not (rate_fits m.eval_success_rate)
      then err value_error
      else if is_negative m.training_steps
      then err value_error
      else if m.deployed && not (is_pass m.deployment_gating_result)
      then err value_error
      else ok m

pub record CheckpointVersion (Rate : Type 0) : Type 0 where
  pub version_id : String
  pub trained_on : String
  pub created_at : String
  pub architecture : String
  pub training_steps : ℤ
  pub eval_success_rate : Option Rate
  pub deployed : Bool
  pub deployment_gating_result : GatingResult

unfoldable pub create_checkpoint :
    {Rate : Type 0} → CheckpointVersion Rate → Result DatasetError (CheckpointVersion Rate)
unfolding is_semver
create_checkpoint c =
    if not (is_semver c.version_id)
    then err value_error
    else if is_negative c.training_steps
    then err value_error
    else ok c

-- A policy.meta.json: not to be read as JSON, an object that says this or nothing of its dataset,
-- or what a writer stored.
pub data MetaFile (Rate : Type 0) : Type 0 where
  unreadable : MetaFile Rate
  other_json : Option String → MetaFile Rate
  stored : PolicyMeta Rate → MetaFile Rate

pub data IssueCode : Type 0 where
  policy_meta_unreadable policy_source_dataset_mismatch : IssueCode

-- The arguments of write_framework_meta about the framework and its run.
pub record FrameworkRun : Type 0 where
  pub framework_name : String
  pub framework_type : String
  pub adapter_version : String
  pub checkpoint_path : Option String
  pub training_result_path : String
  pub eval_result_path : Option String
  pub robolineage_context_path : Option String

module _ {Rate : Type 0} (in_unit : Rate → Bool) where
  -- The part that both writers share, from the check of the target on.
  abbrev pub store_meta :
      String
      → Result DatasetError (PolicyMeta Rate)
      → Exec (Dict (MetaFile Rate)) DatasetError String
  store_meta folder (err e) f = (err e, f)
  store_meta folder (ok m) f =
      let target = file_in folder "policy.meta.json" in
      if is_there (get target f) then (err file_exists, f) else (ok target, put target (stored m) f)

  abbrev pub plain_meta :
      String → String → ℤ → String → Option Rate → GatingResult → DatasetLock → PolicyMeta Rate
  plain_meta policy_version architecture steps created_at rate gating lock = record {
    version_id = policy_version;
    trained_on_dataset = lock.version_id;
    architecture = architecture;
    training_steps = steps;
    created_at = created_at;
    eval_success_rate = rate;
    deployed = false;
    deployment_gating_result = gating;
    framework_name = none;
    framework_type = none;
    adapter_version = none;
    checkpoint_path = none;
    training_result_path = none;
    eval_result_path = none;
    robolineage_context_path = none;
  }

  -- PolicyMetaWriter.write
  unfoldable pub write_meta :
      String
      → String
      → ℤ
      → String
      → String
      → Option Rate
      → GatingResult
      → DatasetLock
      → Exec (Dict (MetaFile Rate)) DatasetError String
  unfolding create_meta
  write_meta policy_version architecture steps output_dir created_at rate gating lock f =
      if str_eq lock.version_id ""
      then (err value_error, f)
      else store_meta output_dir
          (create_meta in_unit
            (plain_meta policy_version architecture steps created_at rate gating lock))
          f

  abbrev pub framework_meta : FrameworkRun → PolicyMeta Rate → PolicyMeta Rate
  framework_meta run m = record m {
    framework_name = some run.framework_name;
    framework_type = some run.framework_type;
    adapter_version = some run.adapter_version;
    checkpoint_path = run.checkpoint_path;
    training_result_path = some run.training_result_path;
    eval_result_path = run.eval_result_path;
    robolineage_context_path = run.robolineage_context_path;
  }

  -- PolicyMetaWriter.write_framework_meta
  unfoldable pub write_framework_meta :
      String
      → String
      → ℤ
      → String
      → String
      → Option Rate
      → GatingResult
      → FrameworkRun
      → DatasetLock
      → Exec (Dict (MetaFile Rate)) DatasetError String
  unfolding create_meta
  write_framework_meta policy_version architecture steps checkpoint_dir created_at rate gating run
        lock f =
      store_meta checkpoint_dir
        (create_meta in_unit (
          framework_meta run
            (plain_meta policy_version architecture steps created_at rate gating lock)))
        f

abbrev pub check_source : Option String → DatasetLock → List IssueCode
check_source none lock = policy_source_dataset_mismatch ∷ []
check_source (some v) lock =
    if str_eq v lock.version_id then [] else policy_source_dataset_mismatch ∷ []

abbrev pub check_meta : {Rate : Type 0} → Option (MetaFile Rate) → DatasetLock → List IssueCode
check_meta none lock = policy_meta_unreadable ∷ []
check_meta (some unreadable) lock = policy_meta_unreadable ∷ []
check_meta (some (other_json v)) lock = check_source v lock
check_meta (some (stored m)) lock = check_source (some m.trained_on_dataset) lock

-- PolicyMetaWriter.verify_integrity
unfoldable pub verify_integrity :
    {Rate : Type 0} → String → DatasetLock → Dict (MetaFile Rate) → List IssueCode
verify_integrity path lock f = check_meta (get path f) lock
