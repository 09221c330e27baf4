-- ===== src/Training.antt =====
-- What the training lifecycle takes from reviewed rollouts and from datasets
-- (src/robolineage_train/lifecycle.py, src/robolineage_contracts/pipeline/manifest.py).
pub mod Selection
pub mod Latest
mod Tests
use robolineage.Prelude.{
  ℕ, String, Bool, true, false, not, ◌&&◌, ◌||◌, Option, none, some, List, [], ◌∷◌, ◌++◌, any,
  filter, leb, ltb, str_eq, if◌then◌else◌,
}
use robolineage.Prelude.Int.{ℤ, pos, negsuc}
use robolineage.Prelude.Result.{Result, ok, err}
use robolineage.Prelude.Sort.{sort_by}
use robolineage.Dataset.Lock.{DatasetError, value_error}
use robolineage.Dataset.Version.{parse_version}
use robolineage.Dataset.Policy.{GatingResult, pass, fail, pending}

-- A dataset_admission.json: accepted_for_training where it is a Boolean, and the rest that is read.
pub record AdmissionFile : Type 0 where
  pub accepted_for_training : Option Bool
  pub decision : String
  pub reasons : List String

-- An entry of the rollouts' folder, with what its files say. An admission that is missing or empty
-- is absent; a confidence is a number of thousandths, where there is one.
pub record RolloutFolder : Type 0 where
  pub name : String
  pub is_dir : Bool
  pub admission : Option AdmissionFile
  pub success_confidence : Option ℤ
  pub phases : Option (List String)

pub record TrainManifestEntry : Type 0 where
  pub export_id : String
  pub rollout_id : String
  pub sample_dir : String
  pub review_score : String
  pub confidence : ℤ
  pub l1_phases : Option (List String)
  pub reasons : List String

abbrev pub in_unit : ℤ → Bool
in_unit (pos n) = leb n 1000
in_unit (negsuc n) = false

-- TrainManifestEntry(…)
unfoldable pub create_entry : TrainManifestEntry → Result DatasetError TrainManifestEntry
create_entry e = if in_unit e.confidence then ok e else err value_error

unfoldable pub review_score_for_decision : String → String
review_score_for_decision d = if str_eq d "accepted" then "A" else "B"

abbrev pub contains : String → List String → Bool
contains s l = any (λ t. str_eq t s) l

abbrev pub is_allowed : Option (List String) → String → Bool
is_allowed none name = true
is_allowed (some l) name = contains name l

-- The rollout's own word, or else whether the decision is one of those that are included.
abbrev pub is_accepted : Option Bool → String → List String → Bool
is_accepted (some b) decision include = b
is_accepted none decision include = contains decision include

abbrev pub is_admitted : Option AdmissionFile → List String → Bool
is_admitted none include = false
is_admitted (some a) include = is_accepted a.accepted_for_training a.decision include

unfoldable pub selects : List String → Option (List String) → RolloutFolder → Bool
selects include rollouts f =
    f.is_dir && (is_allowed rollouts f.name && is_admitted f.admission include)

abbrev pub or_half : Option ℤ → ℤ
or_half none = pos 500
or_half (some c) = c

abbrev pub decision_of : Option AdmissionFile → String
decision_of none = ""
decision_of (some a) = a.decision

abbrev pub reasons_of : Option AdmissionFile → List String
reasons_of none = []
reasons_of (some a) = a.reasons

module _ (resolve : String → String) where
  unfoldable pub entry_of : RolloutFolder → TrainManifestEntry
  unfolding review_score_for_decision
  entry_of f = record {
    export_id = f.name;
    rollout_id = f.name;
    sample_dir = resolve f.name;
    review_score = review_score_for_decision (decision_of f.admission);
    confidence = or_half f.success_confidence;
    l1_phases = f.phases;
    reasons = reasons_of f.admission;
  }

  abbrev pub add_entry :
      Result DatasetError TrainManifestEntry
      → Result DatasetError (List TrainManifestEntry)
      → Result DatasetError (List TrainManifestEntry)
  add_entry (err x) rest = err x
  add_entry (ok e) (err x) = err x
  add_entry (ok e) (ok es) = ok (e ∷ es)

  unfoldable pub entries_of :
      List String
      → Option (List String)
      → List RolloutFolder
      → Result DatasetError (List TrainManifestEntry)
  unfolding selects create_entry entry_of
  entries_of include rollouts [] = ok []
  entries_of include rollouts (f ∷ fs) =
      let rest = entries_of include rollouts fs in
      if selects include rollouts f then add_entry (create_entry (entry_of f)) rest else rest

  -- build_train_manifest_from_post_review, without the writing of the entries
  unfoldable pub build_train_manifest :
      List String
      → Option (List String)
      → List RolloutFolder
      → Result DatasetError (List TrainManifestEntry)
  unfolding entries_of
  build_train_manifest include rollouts folders =
      entries_of include rollouts (sort_by (λ f. f.name) folders)

-- An entry of the datasets' folder: its name, and whether it is a folder with a dataset.lock.
abbrev pub DatasetFolder : Type 0
DatasetFolder = String × Bool

abbrev pub numbered : Bool → {E : Type 0} → Result E ℕ → Option ℕ
numbered true (ok n) = some n
numbered _ _ = none

abbrev pub later : String → Option ℕ → Option (ℕ × String) → Option (ℕ × String)
later name none best = best
later name (some n) none = some (n, name)
later name (some n) (some (m, other)) = if ltb n m then some (m, other) else some (n, name)

-- The last of the highest numbers so far, `best` to begin with.
unfoldable pub latest_from : Option (ℕ × String) → List DatasetFolder → Option (ℕ × String)
unfolding parse_version
latest_from best [] = best
latest_from best ((name, has_lock) ∷ fs) =
    latest_from (later name (numbered has_lock (parse_version name)) best) fs

-- latest_dataset_lock: the folder whose lock it is
unfoldable pub latest_dataset_lock : List DatasetFolder → Option (ℕ × String)
unfolding latest_from
latest_dataset_lock folders = latest_from none folders

pub data Recommendation : Type 0 where
  hold deploy_recommended collect_more_data : Recommendation

-- The last train report: its `train_status`, and whether it has errors.
pub record TrainReport : Type 0 where
  pub train_status : String
  pub has_errors : Bool

abbrev pub is_broken : TrainReport → Bool
is_broken r = r.has_errors || (str_eq r.train_status "failed" || str_eq r.train_status "unstable")

abbrev pub at_rate : Option ℕ → ℕ → Recommendation × GatingResult
at_rate none threshold = (hold, pending)
at_rate (some rate) threshold =
    if leb threshold rate then (deploy_recommended, pass) else (collect_more_data, fail)

-- deployment_recommendation, in its decision and gating result
unfoldable pub deployment_recommendation :
    TrainReport → Option ℕ → ℕ → Recommendation × GatingResult
deployment_recommendation report success_rate threshold =
    if is_broken report then (hold, fail) else at_rate success_rate threshold
