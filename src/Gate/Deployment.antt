-- ===== src/Gate/Deployment.antt =====
-- What a deployment record vouches for.
use robolineage.Prelude.{
  ◌≡◌, ◌⊎◌, refl, ap, ◌∙◌, String, Bool, true, false, not, ◌&&◌, Option, none, some, inr, eq_iff,
  is_some, arith,
}
use robolineage.Prelude.Dict
use robolineage.Prelude.Result.{Result, ok, err}
use robolineage.Gate.{
  GateDecision, pass, Exn, Payload, GateTicket, File, unreadable, not_object, ticket_file, Tickets,
  is_empty, signature, load, load_file, same_signature, check_ticket, check_file, check, grant,
  require_pass, DeploymentRecord, PolicyDir, deployment_record, write_deployment, deploy_versions,
  deploy_policy,
}

-- The check passes, and does not raise.
abbrev pub is_pass : Result Exn GateDecision → Bool
is_pass (ok pass) = true
is_pass _ = false

abbrev pub is_ok : {A : Type 0} → Result Exn A → Bool
is_ok (ok a) = true
is_ok (err e) = false

module _ {D : Type 0} where
  written_record :
      (policy dataset now : String) (writable : Bool) (t : GateTicket D) (dir dir' : PolicyDir D)
      (r : DeploymentRecord D)
      → write_deployment policy dataset now writable (ok t) dir ≡ (ok r, dir')
      → (r ≡ deployment_record policy dataset now t)
        × (dir.deployment ≡ none)
        × (dir' ≡ record dir { deployment = some r })
  unfolding write_deployment
  written_record policy dataset now writable t dir dir' r h = ground arith

  written :
      (policy dataset now : String) (writable : Bool) (g : Result Exn (GateTicket D))
      (dir dir' : PolicyDir D) (r : DeploymentRecord D)
      → write_deployment policy dataset now writable g dir ≡ (ok r, dir')
      → (t : GateTicket D) × (g ≡ ok t)
        × (r ≡ deployment_record policy dataset now t)
        × (dir.deployment ≡ none)
        × (dir' ≡ record dir { deployment = some r })
  unfolding write_deployment
  written policy dataset now writable (err e) dir dir' r h = absurd (cc h)
  written policy dataset now writable (ok t) dir dir' r h =
      let (made, free, stored) = written_record policy dataset now writable t dir dir' r h in
      (t, refl, made, free, stored)

module _ {D : Type 0} (same_digest : D → D → Bool) (digest : Payload → D) where
  -- The ticket was issued for this dataset and policy, over some review, and its signature fits.
  pub record IsPassing (dataset policy : String) (t : GateTicket D) : Type 0 where
    pub signed : same_signature same_digest digest t.signature (signature digest t.payload) ≡ true
    pub dataset_fits : t.payload.dataset_lock_version ≡ dataset
    pub policy_fits : t.payload.target_policy_version ≡ policy
    pub reviewed : is_empty t.payload.review_artifact_hashes ≡ false

  check_ticket-IsPassing :
      (dataset policy : String) (t : GateTicket D)
      → check_ticket same_digest digest dataset policy t ≡ pass
      → IsPassing dataset policy t
  unfolding check_ticket
  check_ticket-IsPassing dataset policy t h = ground (
    arith,
    eq_iff t.payload.dataset_lock_version dataset,
    eq_iff t.payload.target_policy_version policy,
  )

  granted :
      (dataset policy : String) (o : Option (File D)) (t : GateTicket D)
      → grant (check_file same_digest digest dataset policy o) (load_file o) ≡ ok t
      → (o ≡ some (ticket_file t)) × IsPassing dataset policy t
  unfolding check_file load_file grant
  granted dataset policy none t h = absurd (cc h)
  granted dataset policy (some unreadable) t h = absurd (cc h)
  granted dataset policy (some not_object) t h = absurd (cc h)
  granted dataset policy (some (ticket_file u)) t h =
      ground (arith, check_ticket-IsPassing dataset policy u)

  -- What is granted is the ticket of the file, and it passes.
  require_pass-IsPassing :
      (id dataset policy : String) (tickets : Tickets D) (t : GateTicket D)
      → require_pass same_digest digest id dataset policy tickets ≡ ok t
      → (Dict.get id tickets ≡ some (ticket_file t)) × IsPassing dataset policy t
  unfolding require_pass check load
  require_pass-IsPassing id dataset policy tickets t h =
      granted dataset policy (Dict.get id tickets) t h

  deployed :
      (id now : String) (writable : Bool) (policy dataset : Option String) (tickets : Tickets D)
      (dir dir' : PolicyDir D) (r : DeploymentRecord D)
      → deploy_versions same_digest digest id now writable policy dataset tickets dir ≡ (ok r, dir')
      → (t : GateTicket D) × (Dict.get id tickets ≡ some (ticket_file t))
        × IsPassing r.dataset_version r.policy_version t
        × (r.gate_signature ≡ t.signature)
        × (policy ≡ some r.policy_version)
        × (dataset ≡ some r.dataset_version)
        × (dir.deployment ≡ none)
        × (dir' ≡ record dir { deployment = some r })
  unfolding deploy_versions
  deployed id now writable none dataset tickets dir dir' r h = absurd (cc h)
  deployed id now writable (some policy) none tickets dir dir' r h = absurd (cc h)
  deployed id now writable (some policy) (some dataset) tickets dir dir' r h =
      let (t, granted_, made, free, stored) = written policy dataset now writable _ dir dir' r h in
      let (file, passing) = require_pass-IsPassing id dataset policy tickets t granted_ in
      (t, file, rw made passing, rw made refl, rw made refl, rw made refl, free, stored)

  -- Everything that a deployment record says comes from a ticket that passes.
  pub deploy_vouches :
      (id now : String) (writable : Bool) (tickets : Tickets D) (dir dir' : PolicyDir D)
      (r : DeploymentRecord D)
      → deploy_policy same_digest digest id now writable tickets dir ≡ (ok r, dir')
      → (t : GateTicket D) × (Dict.get id tickets ≡ some (ticket_file t))
        × IsPassing r.dataset_version r.policy_version t
        × (r.gate_signature ≡ t.signature)
        × (dir.version_id ≡ some r.policy_version)
        × (dir.trained_on_dataset ≡ some r.dataset_version)
        × (dir.deployment ≡ none)
        × (dir' ≡ record dir { deployment = some r })
  unfolding deploy_policy
  deploy_vouches id now writable tickets dir dir' r h =
      deployed id now writable dir.version_id dir.trained_on_dataset tickets dir dir' r h

  is_ok-granted :
      (dataset policy : String) (o : Option (File D))
      → is_ok (grant (check_file same_digest digest dataset policy o) (load_file o))
        ≡ is_pass (check_file same_digest digest dataset policy o)
  unfolding check_file load_file grant
  is_ok-granted dataset policy none = refl
  is_ok-granted dataset policy (some unreadable) = refl
  is_ok-granted dataset policy (some not_object) = refl
  is_ok-granted dataset policy (some (ticket_file u)) = ground arith

  is_ok-require_pass :
      (id dataset policy : String) (tickets : Tickets D)
      → is_ok (require_pass same_digest digest id dataset policy tickets)
        ≡ is_pass (check same_digest digest id dataset policy tickets)
  unfolding require_pass check load
  is_ok-require_pass id dataset policy tickets = is_ok-granted dataset policy (Dict.get id tickets)

  written_if :
      (policy dataset now : String) (writable : Bool) (g : Result Exn (GateTicket D))
      (dir : PolicyDir D)
      → (is_ok (write_deployment policy dataset now writable g dir).0
          ≡ (is_ok g && (not (is_some dir.deployment) && writable)))
        × ((is_ok (write_deployment policy dataset now writable g dir).0 ≡ true)
            ⊎ ((write_deployment policy dataset now writable g dir).1 ≡ dir))
  unfolding write_deployment
  written_if policy dataset now writable (err e) dir = (refl, inr refl)
  written_if policy dataset now writable (ok t) dir = (ground arith, ground arith)

  deploy-versions :
      (id now policy dataset : String) (writable : Bool) (tickets : Tickets D) (dir : PolicyDir D)
      → dir.version_id ≡ some policy
      → dir.trained_on_dataset ≡ some dataset
      → deploy_policy same_digest digest id now writable tickets dir
        ≡ write_deployment policy dataset now writable
            (require_pass same_digest digest id dataset policy tickets)
            dir
  unfolding deploy_policy deploy_versions
  deploy-versions id now policy dataset writable tickets dir v t =
      ap
        (λ p.
          deploy_versions same_digest digest id now writable p dir.trained_on_dataset tickets dir)
        v
      ∙ ap (λ q. deploy_versions same_digest digest id now writable (some policy) q tickets dir) t

  -- A policy whose metadata names its version and its dataset is deployed exactly when the gate's
  -- check of these two passes, it was not deployed before, and the record can be written. Where it is
  -- not deployed, its directory stays as it was.
  pub deploy_exact :
      (id now policy dataset : String) (writable : Bool) (tickets : Tickets D) (dir : PolicyDir D)
      → dir.version_id ≡ some policy
      → dir.trained_on_dataset ≡ some dataset
      → (is_ok (deploy_policy same_digest digest id now writable tickets dir).0 ≡ (
          is_pass (check same_digest digest id dataset policy tickets)
          && (not (is_some dir.deployment) && writable)))
        × ((is_ok (deploy_policy same_digest digest id now writable tickets dir).0 ≡ true)
            ⊎ ((deploy_policy same_digest digest id now writable tickets dir).1 ≡ dir))
  deploy_exact id now policy dataset writable tickets dir v t =
      let written_ =
        written_if policy dataset now writable
          (require_pass same_digest digest id dataset policy tickets) dir in
      rw (deploy-versions id now policy dataset writable tickets dir v t) (
        written_.0
            ∙ ap (λ b. b && (not (is_some dir.deployment) && writable))
                (is_ok-require_pass id dataset policy tickets),
        written_.1,
      )
