-- ===== src/Gate/Tests.antt =====
-- The gate with a digest that is the payload itself, on concrete tickets and policies.
use robolineage.Prelude.{
  ◌≡◌, ◌⊎◌, refl, ap, ◌≢◌, String, Bool, true, false, ◌&&◌, some, none, List, [], ◌∷◌, str_eq,
  eq_iff, arith,
}
use robolineage.Prelude.Dict
use robolineage.Prelude.Result.{ok}
use robolineage.Gate.{
  pass, fail, Payload, GateTicket, ticket_file, Tickets, Request, hashes, payload_of, signature,
  signed, issue_ticket, issue, load, load_file, check_ticket, check_file, check, grant,
  require_pass, DeploymentRecord, PolicyDir, write_deployment, deploy_versions, deploy_policy,
}
use robolineage.Gate.Tickets.{check-issue, check-tampered}
use robolineage.Gate.Deployment.{is_pass, is_ok, deploy_exact}

abbrev same_hashes : List String → List String → Bool
same_hashes [] [] = true
same_hashes (x ∷ xs) (y ∷ ys) = str_eq x y && same_hashes xs ys
same_hashes _ _ = false

same_hashes_refl : (l : List String) → same_hashes l l ≡ true
same_hashes_refl [] = refl
same_hashes_refl (x ∷ xs) = ground (arith, eq_iff x x, same_hashes_refl xs)

same_hashes-eq : (k l : List String) → same_hashes k l ≡ true → k ≡ l
same_hashes-eq [] [] h = refl
same_hashes-eq [] (y ∷ ys) h = absurd (cc h)
same_hashes-eq (x ∷ xs) [] h = absurd (cc h)
same_hashes-eq (x ∷ xs) (y ∷ ys) h = ground (arith, eq_iff x y, same_hashes-eq xs ys)

abbrev same : Payload → Payload → Bool
same p q =
    str_eq p.ticket_id q.ticket_id
    && (str_eq p.issued_at q.issued_at
        && (str_eq p.issued_by q.issued_by
            && (str_eq p.dataset_lock_version q.dataset_lock_version
                && (str_eq p.target_policy_version q.target_policy_version
                    && same_hashes p.review_artifact_hashes q.review_artifact_hashes))))

same_refl : (p : Payload) → same p p ≡ true
same_refl p = ground (
  arith,
  eq_iff p.ticket_id p.ticket_id,
  eq_iff p.issued_at p.issued_at,
  eq_iff p.issued_by p.issued_by,
  eq_iff p.dataset_lock_version p.dataset_lock_version,
  eq_iff p.target_policy_version p.target_policy_version,
  same_hashes_refl p.review_artifact_hashes,
)

same-eq : (p q : Payload) → same p q ≡ true → p ≡ q
same-eq p q h = ground (
  arith,
  eq_iff p.ticket_id q.ticket_id,
  eq_iff p.issued_at q.issued_at,
  eq_iff p.issued_by q.issued_by,
  eq_iff p.dataset_lock_version q.dataset_lock_version,
  eq_iff p.target_policy_version q.target_policy_version,
  same_hashes-eq p.review_artifact_hashes q.review_artifact_hashes,
)

abbrev digest : Payload → Payload
digest p = p

abbrev request : Request
request = record {
  issued_by = "ann";
  review_artifacts = some "h1" ∷ [];
  dataset_lock_version = "d1";
  target_policy_version = "p1";
  uuid4 = "t1";
  now = "noon";
  writable = true;
}

abbrev payload : Payload
payload = record {
  ticket_id = "t1";
  issued_at = "noon";
  issued_by = "ann";
  review_artifact_hashes = "h1" ∷ [];
  dataset_lock_version = "d1";
  target_policy_version = "p1";
}

abbrev ticket : GateTicket Payload
ticket = record { payload = payload; signature = record { issuer = "ann"; digest = payload } }

abbrev tickets : Tickets Payload
tickets = ("t1", ticket_file ticket) ∷ []

issue-request : issue digest request [] ≡ (ok ticket, tickets)
unfolding issue issue_ticket hashes signed signature payload_of Dict.get Dict.put
issue-request = refl

hashes-request : hashes request.review_artifacts ≡ some ("h1" ∷ [])
unfolding hashes
hashes-request = refl

check-issue_example : check same digest "t1" "d1" "p1" tickets ≡ ok pass
check-issue_example =
    check-issue same digest same_refl request ("h1" ∷ []) [] tickets ticket "d1" "p1" hashes-request
      issue-request

-- The ticket, with another dataset written into it.
abbrev forgery : GateTicket Payload
forgery = record ticket { payload = record payload { dataset_lock_version = "d2" } }

forgery-differs : forgery.payload ≢ payload
forgery-differs e = cc ((eq_iff "d2" "d1").1 (ap (λ p. p.dataset_lock_version) e))

check-tampered_example :
    check same digest "t1" "d2" "p1" (("t1", ticket_file forgery) ∷ []) ≡ ok fail
unfolding Dict.get signature
check-tampered_example =
    check-tampered same digest "t1" "d2" "p1" (("t1", ticket_file forgery) ∷ []) forgery payload
      same-eq (λ q r e. e) refl refl forgery-differs

abbrev policy_dir : PolicyDir Payload
policy_dir = record { version_id = some "p1"; trained_on_dataset = some "d1"; deployment = none }

abbrev deployment : DeploymentRecord Payload
deployment = record {
  policy_version = "p1";
  dataset_version = "d1";
  ticket_id = "t1";
  deployed_at = "noon";
  gate_signature = ticket.signature;
}

deploy-policy_dir :
    deploy_policy same digest "t1" "noon" true tickets policy_dir
    ≡ (ok deployment, record policy_dir { deployment = some deployment })
unfolding deploy_policy deploy_versions write_deployment require_pass check load load_file
    check_file check_ticket grant signature Dict.get
deploy-policy_dir = refl

deploy_exact_example :
    (is_ok (deploy_policy same digest "t1" "noon" true tickets policy_dir).0
      ≡ (is_pass (check same digest "t1" "d1" "p1" tickets) && true))
    × ((is_ok (deploy_policy same digest "t1" "noon" true tickets policy_dir).0 ≡ true)
        ⊎ ((deploy_policy same digest "t1" "noon" true tickets policy_dir).1 ≡ policy_dir))
deploy_exact_example =
    deploy_exact same digest "t1" "noon" "p1" "d1" true tickets policy_dir refl refl
