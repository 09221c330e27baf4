-- ===== src/Gate.antt =====
-- ConfirmMergeGate and deploy_policy (src/robolineage_train/gate.py, deploy.py). A ticket or a
-- deployment is a file that is written once. SHA-256 over the canonical JSON of a ticket without its
-- signature is `digest`, whose values are of any type; a signature's text "manual:<issuer>:<digest>"
-- is the pair of its two parts. A file that cannot be read, or whose JSON object does not make a
-- ticket, is `unreadable`; JSON that is no object is `not_object`: raw.get raises an AttributeError
-- there, which nothing catches.
pub mod Tickets
pub mod Deployment
mod Tests
use robolineage.Prelude.{
  String, Bool, true, false, not, ◌&&◌, Option, none, some, List, [], ◌∷◌, if◌then◌else◌, str_eq,
  is_some,
}
use robolineage.Prelude.Dict
use robolineage.Prelude.Dict.{Dict}
use robolineage.Prelude.Result.{Result, ok, err}

pub data GateDecision : Type 0 where
  pass fail pending : GateDecision

pub data Exn : Type 0 where
  file_exists os_error key_error attribute_error : Exn
  gate_denied : GateDecision → Exn

-- What a signature covers: every field of the ticket but the signature itself.
pub record Payload : Type 0 where
  pub ticket_id : String
  pub issued_at : String
  pub issued_by : String
  pub review_artifact_hashes : List String
  pub dataset_lock_version : String
  pub target_policy_version : String

pub record Signature (D : Type 0) : Type 0 where
  pub issuer : String
  pub digest : D

pub record GateTicket (D : Type 0) : Type 0 where
  pub payload : Payload
  pub signature : Signature D

pub data File (D : Type 0) : Type 0 where
  unreadable not_object : File D
  ticket_file : GateTicket D → File D

-- The tickets' directory.
abbrev pub Tickets : Type 0 → Type 0
Tickets D = Dict (File D)

-- The arguments of `issue`, the review artifacts' hashes where the files can be read, the identifier
-- and the time that it draws, and whether the ticket can be written.
pub record Request : Type 0 where
  pub issued_by : String
  pub review_artifacts : List (Option String)
  pub dataset_lock_version : String
  pub target_policy_version : String
  pub uuid4 : String
  pub now : String
  pub writable : Bool

abbrev pub cons_hash : String → Option (List String) → Option (List String)
cons_hash h none = none
cons_hash h (some hs) = some (h ∷ hs)

-- tuple(_sha256_file(path) for path in review_artifact_paths)
unfoldable pub hashes : List (Option String) → Option (List String)
hashes [] = some []
hashes (none ∷ rest) = none
hashes (some h ∷ rest) = cons_hash h (hashes rest)

abbrev pub is_empty : List String → Bool
is_empty [] = true
is_empty (x ∷ xs) = false

unfoldable pub payload_of : Request → List String → Payload
payload_of r hs = record {
  ticket_id = r.uuid4;
  issued_at = r.now;
  issued_by = r.issued_by;
  review_artifact_hashes = hs;
  dataset_lock_version = r.dataset_lock_version;
  target_policy_version = r.target_policy_version;
}

module _ {D : Type 0} (digest : Payload → D) where
  -- _signature
  unfoldable pub signature : Payload → Signature D
  signature p = record { issuer = p.issued_by; digest = digest p }

  unfoldable pub signed : Payload → GateTicket D
  unfolding signature
  signed p = record { payload = p; signature = signature p }

  unfoldable pub issue_ticket :
      Request → Option (List String) → Tickets D → Result Exn (GateTicket D) × Tickets D
  issue_ticket r none tickets = (err os_error, tickets)
  issue_ticket r (some hs) tickets =
      if is_some (Dict.get r.uuid4 tickets)
      then (err file_exists, tickets)
      else if r.writable
      then (
        ok (signed (payload_of r hs)),
        Dict.put r.uuid4 (ticket_file (signed (payload_of r hs))) tickets,
      )
      else (err os_error, tickets)

  unfoldable pub issue : Request → Tickets D → Result Exn (GateTicket D) × Tickets D
  unfolding issue_ticket
  issue r tickets = issue_ticket r (hashes r.review_artifacts) tickets

module _ {D : Type 0} where
  unfoldable pub load_file : Option (File D) → Result Exn (Option (GateTicket D))
  load_file none = ok none
  load_file (some unreadable) = ok none
  load_file (some not_object) = err attribute_error
  load_file (some (ticket_file t)) = ok (some t)

  -- load
  unfoldable pub load : String → Tickets D → Result Exn (Option (GateTicket D))
  unfolding load_file
  load ticket_id tickets = load_file (Dict.get ticket_id tickets)

  unfoldable pub grant :
      Result Exn GateDecision → Result Exn (Option (GateTicket D)) → Result Exn (GateTicket D)
  grant (err e) t = err e
  grant (ok fail) t = err (gate_denied fail)
  grant (ok pending) t = err (gate_denied pending)
  grant (ok pass) (err e) = err e
  grant (ok pass) (ok none) = err (gate_denied pass)
  grant (ok pass) (ok (some t)) = ok t

module _ {D : Type 0} (same_digest : D → D → Bool) (digest : Payload → D) where
  abbrev pub same_signature : Signature D → Signature D → Bool
  same_signature s t = str_eq s.issuer t.issuer && same_digest s.digest t.digest

  -- What `check` asks of a ticket.
  unfoldable pub check_ticket :
      (expected_dataset expected_policy : String) → GateTicket D → GateDecision
  unfolding signature
  check_ticket expected_dataset expected_policy t =
      if not (same_signature t.signature (signature digest t.payload))
      then fail
      else if not (str_eq t.payload.dataset_lock_version expected_dataset)
      then fail
      else if not (str_eq t.payload.target_policy_version expected_policy)
      then fail
      else if is_empty t.payload.review_artifact_hashes
      then fail
      else pass

  unfoldable pub check_file :
      (expected_dataset expected_policy : String) → Option (File D) → Result Exn GateDecision
  unfolding check_ticket
  check_file expected_dataset expected_policy none = ok pending
  check_file expected_dataset expected_policy (some unreadable) = ok fail
  check_file expected_dataset expected_policy (some not_object) = err attribute_error
  check_file expected_dataset expected_policy (some (ticket_file t)) =
      ok (check_ticket expected_dataset expected_policy t)

  -- check
  unfoldable pub check :
      (ticket_id expected_dataset expected_policy : String) → Tickets D → Result Exn GateDecision
  unfolding check_file
  check ticket_id expected_dataset expected_policy tickets =
      check_file expected_dataset expected_policy (Dict.get ticket_id tickets)

  unfoldable pub require_pass :
      (ticket_id expected_dataset expected_policy : String) → Tickets D → Result Exn (GateTicket D)
  unfolding check load grant
  require_pass ticket_id expected_dataset expected_policy tickets =
      grant (check ticket_id expected_dataset expected_policy tickets) (load ticket_id tickets)

pub record DeploymentRecord (D : Type 0) : Type 0 where
  pub policy_version : String
  pub dataset_version : String
  pub ticket_id : String
  pub deployed_at : String
  pub gate_signature : Signature D

-- A policy's directory: the fields of policy.meta.json that are there, and deployment.json.
pub record PolicyDir (D : Type 0) : Type 0 where
  pub version_id : Option String
  pub trained_on_dataset : Option String
  pub deployment : Option (DeploymentRecord D)

module _ {D : Type 0} where
  abbrev pub deployment_record : (policy dataset now : String) → GateTicket D → DeploymentRecord D
  deployment_record policy dataset now t = record {
    policy_version = policy;
    dataset_version = dataset;
    ticket_id = t.payload.ticket_id;
    deployed_at = now;
    gate_signature = t.signature;
  }

  unfoldable pub write_deployment :
      (policy dataset now : String) (writable : Bool)
      → Result Exn (GateTicket D)
      → PolicyDir D
      → Result Exn (DeploymentRecord D) × PolicyDir D
  write_deployment policy dataset now writable (err e) dir = (err e, dir)
  write_deployment policy dataset now writable (ok t) dir =
      if is_some dir.deployment
      then (err file_exists, dir)
      else if writable
      then (
        ok (deployment_record policy dataset now t),
        record dir { deployment = some (deployment_record policy dataset now t) },
      )
      else (err os_error, dir)

module _ {D : Type 0} (same_digest : D → D → Bool) (digest : Payload → D) where
  unfoldable pub deploy_versions :
      (ticket_id now : String) (writable : Bool) (policy dataset : Option String)
      → Tickets D
      → PolicyDir D
      → Result Exn (DeploymentRecord D) × PolicyDir D
  unfolding write_deployment require_pass
  deploy_versions ticket_id now writable (some policy) (some dataset) tickets dir =
      write_deployment policy dataset now writable
        (require_pass same_digest digest ticket_id dataset policy tickets) dir
  deploy_versions ticket_id now writable _ _ tickets dir = (err key_error, dir)

  -- deploy_policy
  unfoldable pub deploy_policy :
      (ticket_id now : String) (writable : Bool)
      → Tickets D
      → PolicyDir D
      → Result Exn (DeploymentRecord D) × PolicyDir D
  unfolding deploy_versions
  deploy_policy ticket_id now writable tickets dir =
      deploy_versions ticket_id now writable dir.version_id dir.trained_on_dataset tickets dir
