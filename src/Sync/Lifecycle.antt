-- ===== src/Sync/Lifecycle.antt =====
-- What starting and stopping calls on the adapters, failures included.
use mathlib.Core.List.{append-nil, append_assoc, reverse-cons}
use robolineage.Prelude.{
  ◌≡◌, refl, sym, ap, ◌∙◌, String, Bool, true, false, inl, inr, Option, none, some, List, [], ◌∷◌,
  ◌++◌, map, reverse, if◌then◌else◌, Bool-cases,
}
use robolineage.Prelude.Result.{Result, ok, err}
use robolineage.Prelude.Exec.{proceed, modify}
use robolineage.Sync.{
  Group, Role, slave_role, master_role, Adapters, Exn, runtime_error, device_error, Call,
  configure_sync, start, stop, Manager, call, configure, configure_slaves, configure_groups,
  stop_all, start_all, start_manager, launch, stop_manager,
}

abbrev with_calls : Manager → List Call → Manager
with_calls m l = record m { calls = m.calls ++ l }

with_calls-append :
    (m : Manager) (k l : List Call) → with_calls (with_calls m k) l ≡ with_calls m (k ++ l)
with_calls-append m k l = ap (λ c. record m { calls = c }) (append_assoc m.calls k l)

with_calls-nil : (m : Manager) → m ≡ with_calls m []
with_calls-nil m = ap (λ c. record m { calls = c }) (sym (append-nil m.calls))

call-calls : (c : Call) (ok_ : Bool) (m : Manager) → (call c ok_ m).1 ≡ with_calls m (c ∷ [])
unfolding call
call-calls c true m = refl
call-calls c false m = refl

abbrev pub mark_started : Result Exn Unit × Manager → Result Exn Unit × Manager
mark_started (ok tt, m) = (ok tt, record m { started = true })
mark_started (err e, m) = (err e, m)

marked :
    (r : Result Exn Unit × Manager)
    → (proceed r.0 (λ _. modify (λ s. record s { started = true })) r.1) ≡ mark_started r
marked (ok tt, m) = refl
marked (err e, m) = refl

module _ (d : Adapters) where
  -- The sync roles that the hardware takes: within a group the slaves, then the master.
  abbrev pub sync_call : String → Role → List Call
  sync_call n role = if d.supports_hw_sync n then configure_sync n role ∷ [] else []

  abbrev pub slave_calls : List String → List Call
  slave_calls [] = []
  slave_calls (n ∷ ns) = sync_call n slave_role ++ slave_calls ns

  abbrev pub sync_calls : List Group → List Call
  sync_calls [] = []
  sync_calls (g ∷ gs) = slave_calls g.slaves ++ (sync_call g.master master_role ++ sync_calls gs)

  -- The adapters before the first one that fails to start, and that one.
  abbrev pub until_failure : List String → List String × Option String
  until_failure [] = ([], none)
  until_failure (n ∷ ns) =
      let (before, failed) = until_failure ns in
      if d.starts n then (n ∷ before, failed) else ([], some n)

  stop_all-calls : (ns : List String) (m : Manager) → stop_all d ns m ≡ with_calls m (map stop ns)
  unfolding stop_all
  stop_all-calls [] m = with_calls-nil m
  stop_all-calls (n ∷ ns) m =
      ap (stop_all d ns) (call-calls (stop n) (d.stops n) m)
      ∙ stop_all-calls ns (with_calls m (stop n ∷ []))
      ∙ with_calls-append m (stop n ∷ []) (map stop ns)

  -- What the loop of starts does, given where it ends.
  abbrev pub started_outcome :
      List String → Manager → List String × Option String → Result Exn Unit × Manager
  started_outcome so_far m (names, none) = (ok tt, with_calls m (map start names))
  started_outcome so_far m (names, some n) = (
    err device_error,
    with_calls m (map start names ++ start n ∷ map stop (reverse names ++ so_far)),
  )

  outcome-cons :
      (n : String) (so_far : List String) (m : Manager) (r : List String × Option String)
      → started_outcome (n ∷ so_far) (with_calls m (start n ∷ [])) r
        ≡ started_outcome so_far m (n ∷ r.0, r.1)
  outcome-cons n so_far m (names, none) =
      ap (λ m. (ok tt, m)) (with_calls-append m (start n ∷ []) (map start names))
  outcome-cons n so_far m (names, some k) =
      ap (λ m. (err device_error, m))
        (with_calls-append m (start n ∷ []) _
          ∙ ap (λ l. with_calls m (start n ∷ map start names ++ start k ∷ map stop l))
              (sym (append_assoc (reverse names) (n ∷ []) so_far)
                ∙ ap (λ l. l ++ so_far) (sym (reverse-cons n names))))

  start_all-outcome :
      (so_far order : List String) (m : Manager)
      → start_all d so_far order m ≡ started_outcome so_far m (until_failure order)
  unfolding start_all
  start_all-outcome so_far [] m = ap (λ m. (ok tt, m)) (with_calls-nil m)
  start_all-outcome so_far (n ∷ ns) m = elim (Bool-cases (d.starts n)) [
    | inl works ↦ rw works (
        ap (start_all d (n ∷ so_far) ns) (call-calls (start n) true m)
        ∙ start_all-outcome (n ∷ so_far) ns (with_calls m (start n ∷ []))
        ∙ outcome-cons n so_far m (until_failure ns))
    | inr fails ↦ rw fails (
        ap (λ m. (err device_error, m))
          (ap (stop_all d so_far) (call-calls (start n) false m)
            ∙ stop_all-calls so_far (with_calls m (start n ∷ []))
            ∙ with_calls-append m (start n ∷ []) (map stop so_far)))
  ]

  module _ (answers : (n : String) (role : Role) → d.configures n role ≡ true) where
    configure-calls :
        (n : String) (role : Role) (m : Manager)
        → configure d n role m ≡ (ok tt, with_calls m (sync_call n role))
    unfolding configure call
    configure-calls n role m = elim (Bool-cases (d.supports_hw_sync n)) [
      | inl hw ↦ rw (hw, answers n role)
      | inr sw ↦ rw sw (ap (λ m. (ok tt, m)) (with_calls-nil m))
    ]

    configure_slaves-calls :
        (ns : List String) (m : Manager)
        → configure_slaves d ns m ≡ (ok tt, with_calls m (slave_calls ns))
    unfolding configure_slaves
    configure_slaves-calls [] m = ap (λ m. (ok tt, m)) (with_calls-nil m)
    configure_slaves-calls (n ∷ ns) m = rw (configure-calls n slave_role m) (
        configure_slaves-calls ns (with_calls m (sync_call n slave_role))
        ∙ ap (λ m. (ok tt, m)) (with_calls-append m (sync_call n slave_role) (slave_calls ns)))

    configure_groups-calls :
        (gs : List Group) (m : Manager)
        → configure_groups d gs m ≡ (ok tt, with_calls m (sync_calls gs))
    unfolding configure_groups
    configure_groups-calls [] m = ap (λ m. (ok tt, m)) (with_calls-nil m)
    configure_groups-calls (g ∷ gs) m =
        let m1 = with_calls m (slave_calls g.slaves) in
        let m2 = with_calls m1 (sync_call g.master master_role) in
        rw (configure_slaves-calls g.slaves m, configure-calls g.master master_role m1)
          (configure_groups-calls gs m2
            ∙ ap (λ m. (ok tt, m))
                (with_calls-append m1 (sync_call g.master master_role) (sync_calls gs)
                  ∙ with_calls-append m (slave_calls g.slaves) _))

  launch-outcome :
      (m : Manager)
      → ((n : String) (role : Role) → d.configures n role ≡ true)
      → launch d m
        ≡ mark_started
            (started_outcome [] (with_calls m (sync_calls m.groups)) (until_failure m.order))
  unfolding launch
  launch-outcome m answers =
      rw
        (
          configure_groups-calls answers m.groups m,
          start_all-outcome [] m.order (with_calls m (sync_calls m.groups)),
        )
        (marked (started_outcome [] (with_calls m (sync_calls m.groups)) (until_failure m.order)))

  -- Where configure_sync never raises: `start` on a started manager raises and changes nothing.
  -- Otherwise it configures every group, the slaves before their master, then starts the adapters in
  -- order. If all start, the manager is started; if one fails, those that have started are stopped
  -- in reverse order, even if a stop fails, the manager is not started, and the error is raised.
  pub start_outcome :
      (m : Manager)
      → ((n : String) (role : Role) → d.configures n role ≡ true)
      → start_manager d m ≡ (
          if m.started
          then (err runtime_error, m)
          else mark_started
              (started_outcome [] (with_calls m (sync_calls m.groups)) (until_failure m.order)))
  unfolding start_manager
  start_outcome m answers =
      ap (λ r. if m.started then (err runtime_error, m) else r) (launch-outcome m answers)

  stop_if :
      (b : Bool) (m : Manager)
      → m.started ≡ b
      → ((if b then record (stop_all d (reverse m.order) m) { started = false } else m).started
          ≡ false)
        × ((if b then record (stop_all d (reverse m.order) m) { started = false } else m).calls
            ≡ m.calls ++ (if b then map stop (reverse m.order) else []))
  stop_if true m e = (refl, ap (λ m. m.calls) (stop_all-calls (reverse m.order) m))
  stop_if false m e = (e, sym (append-nil m.calls))

  -- `stop` on a started manager stops every adapter, in the reverse of the start order, whichever of
  -- the stops fail, and on another one does nothing; no manager is started afterwards.
  pub stop_outcome :
      (m : Manager)
      → ((stop_manager d m).started ≡ false)
        × ((stop_manager d m).calls
            ≡ m.calls ++ (if m.started then map stop (reverse m.order) else []))
  unfolding stop_manager
  stop_outcome m = stop_if m.started m refl
