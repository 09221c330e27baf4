-- ===== src/Gate/Tickets.antt =====
-- What a ticket is worth: issued, checked, tampered with.
use robolineage.Prelude.{
  ◌≡◌, ◌≢◌, refl, sym, ap, ◌∙◌, String, Bool, true, false, not, ◌&&◌, Option, none, some, inl, inr,
  List, if◌then◌else◌, str_eq, eq_iff, is_some, Bool-cases, arith,
}
use robolineage.Prelude.Dict
use robolineage.Prelude.Dict.{Dict, get-put}
use robolineage.Prelude.Result.{ok}
use robolineage.Gate.{
  pass, fail, Payload, GateTicket, ticket_file, Tickets, Request, hashes, is_empty, payload_of,
  signature, signed, issue_ticket, issue, same_signature, check_ticket, check_file, check,
}

second : (a b : Bool) → (a && b) ≡ true → b ≡ true
second true b h = h
second false b h = absurd (cc h)

get_own : {V : Type 0} (k : String) (v : V) (d : Dict V) → Dict.get k (Dict.put k v d) ≡ some v
get_own k v d = get-put k k v d ∙ rw ((eq_iff k k).1 refl) refl

module _ {D : Type 0} (digest : Payload → D) where
  issued_ticket :
      (r : Request) (hs : List String) (tickets tickets' : Tickets D) (t : GateTicket D)
      → issue_ticket digest r (some hs) tickets ≡ (ok t, tickets')
      → (t ≡ signed digest (payload_of r hs))
        × (tickets' ≡ Dict.put r.uuid4 (ticket_file (signed digest (payload_of r hs))) tickets)
  unfolding issue_ticket
  issued_ticket r hs tickets tickets' t e = ground arith

  issued :
      (r : Request) (hs : List String) (tickets tickets' : Tickets D) (t : GateTicket D)
      → hashes r.review_artifacts ≡ some hs
      → issue digest r tickets ≡ (ok t, tickets')
      → (t ≡ signed digest (payload_of r hs))
        × (tickets' ≡ Dict.put r.uuid4 (ticket_file (signed digest (payload_of r hs))) tickets)
  unfolding issue
  issued r hs tickets tickets' t h e =
      issued_ticket r hs tickets tickets' t (sym (ap (λ o. issue_ticket digest r o tickets) h) ∙ e)

  get-issue_ticket :
      (r : Request) (o : Option (List String)) (id : String) (tickets : Tickets D)
      → is_some (Dict.get id tickets) ≡ true
      → Dict.get id (issue_ticket digest r o tickets).1 ≡ Dict.get id tickets
  unfolding issue_ticket
  get-issue_ticket r none id tickets there = refl
  get-issue_ticket r (some hs) id tickets there =
      let f = ticket_file (signed digest (payload_of r hs)) in
      ground (arith, get-put r.uuid4 id f tickets, eq_iff r.uuid4 id)

  get-issue :
      (r : Request) (id : String) (tickets : Tickets D)
      → is_some (Dict.get id tickets) ≡ true
      → Dict.get id (issue digest r tickets).1 ≡ Dict.get id tickets
  unfolding issue
  get-issue r id tickets there = get-issue_ticket r (hashes r.review_artifacts) id tickets there

module _ {D : Type 0} (same_digest : D → D → Bool) (digest : Payload → D)
    (reflexive : (a : D) → same_digest a a ≡ true) where
  signed-fits :
      (p : Payload)
      → same_signature same_digest digest (signed digest p).signature (signature digest p) ≡ true
  unfolding signed signature
  signed-fits p = ground (arith, eq_iff p.issued_by p.issued_by, reflexive (digest p))

  check_ticket-signed :
      (p : Payload) (expected_dataset expected_policy : String)
      → check_ticket same_digest digest expected_dataset expected_policy (signed digest p) ≡ (
          if str_eq p.dataset_lock_version expected_dataset
            && (str_eq p.target_policy_version expected_policy
                && not (is_empty p.review_artifact_hashes))
          then pass
          else fail)
  unfolding check_ticket signed
  check_ticket-signed p ed ep = ground (arith, signed-fits p)

  -- A ticket that `issue` returns passes the check for exactly the dataset and the policy that it was
  -- issued for, if it was issued over at least one review artifact, and fails any other check.
  pub check-issue :
      (r : Request) (hs : List String) (tickets tickets' : Tickets D) (t : GateTicket D)
      (expected_dataset expected_policy : String)
      → hashes r.review_artifacts ≡ some hs
      → issue digest r tickets ≡ (ok t, tickets')
      → check same_digest digest t.payload.ticket_id expected_dataset expected_policy tickets'
        ≡ ok (
            if str_eq r.dataset_lock_version expected_dataset
              && (str_eq r.target_policy_version expected_policy && not (is_empty hs))
            then pass
            else fail)
  unfolding check check_file signed payload_of
  check-issue r hs tickets tickets' t ed ep h e =
      let p = payload_of r hs in
      let (made, stored) = issued digest r hs tickets tickets' t h e in
      ap (λ u. check same_digest digest u.payload.ticket_id ed ep tickets') made
      ∙ ap (check same_digest digest r.uuid4 ed ep) stored
      ∙ ap (check_file same_digest digest ed ep)
          (get_own r.uuid4 (ticket_file (signed digest p)) tickets)
      ∙ ap ok (check_ticket-signed p ed ep)

module _ {D : Type 0} (same_digest : D → D → Bool) (digest : Payload → D) where
  refused :
      (expected_dataset expected_policy : String) (t : GateTicket D)
      → same_signature same_digest digest t.signature (signature digest t.payload) ≡ false
      → check_ticket same_digest digest expected_dataset expected_policy t ≡ fail
  unfolding check_ticket
  refused ed ep t h = rw h refl

  forged :
      (t : GateTicket D) (p : Payload)
      → ((a b : D) → same_digest a b ≡ true → a ≡ b)
      → ((q r : Payload) → digest q ≡ digest r → q ≡ r)
      → t.signature ≡ signature digest p
      → t.payload ≢ p
      → same_signature same_digest digest t.signature (signature digest t.payload) ≡ false
  unfolding signature
  forged t p exact injective sig ne =
      elim (Bool-cases
        (same_signature same_digest digest t.signature (signature digest t.payload))) [
          | inr different ↦ different
          | inl same ↦ absurd (
              ne (
                sym (
                  injective p t.payload (
                    sym (ap (λ s. s.digest) sig)
                    ∙ exact t.signature.digest (digest t.payload) (second _ _ same)))))
        ]

  -- Where no two payloads have one digest and same_digest accepts equal digests only, a stored ticket
  -- that carries a signature which was made for another payload is refused, whichever field differs.
  pub check-tampered :
      (ticket_id expected_dataset expected_policy : String) (tickets : Tickets D) (t : GateTicket D)
      (p : Payload)
      → ((a b : D) → same_digest a b ≡ true → a ≡ b)
      → ((q r : Payload) → digest q ≡ digest r → q ≡ r)
      → Dict.get ticket_id tickets ≡ some (ticket_file t)
      → t.signature ≡ signature digest p
      → t.payload ≢ p
      → check same_digest digest ticket_id expected_dataset expected_policy tickets ≡ ok fail
  unfolding check check_file
  check-tampered id ed ep tickets t p exact injective stored sig ne =
      ap (check_file same_digest digest ed ep) stored
      ∙ ap ok (refused ed ep t (forged t p exact injective sig ne))

  -- Whatever `issue` does, a decision on a ticket that is there stays what it is.
  pub check-later :
      (r : Request) (ticket_id expected_dataset expected_policy : String) (tickets : Tickets D)
      → is_some (Dict.get ticket_id tickets) ≡ true
      → check same_digest digest ticket_id expected_dataset expected_policy
          (issue digest r tickets).1
        ≡ check same_digest digest ticket_id expected_dataset expected_policy tickets
  unfolding check
  check-later r id ed ep tickets there =
      ap (check_file same_digest digest ed ep) (get-issue digest r id tickets there)
