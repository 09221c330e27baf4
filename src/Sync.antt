-- ===== src/Sync.antt =====
-- SyncManager (src/robolineage_data_source/sync/manager.py): the order in which device adapters are
-- configured, started and stopped. The adapters are not part of it: what each answers is an argument.
pub mod Order
pub mod Lifecycle
mod Tests
use robolineage.Prelude.{
  String, Bool, true, false, not, reverse, Option, none, some, List, [], ◌∷◌, ◌++◌, if◌then◌else◌,
  str_eq, ◌||◌,
}
use robolineage.Prelude.Result.{ok, err}
use robolineage.Prelude.Exec.{Exec, pure, raise, gets, modify, handle, ◌>>=◌, ◌>>◌}

pub record Group : Type 0 where
  pub name : String
  pub master : String
  pub slaves : List String

pub data Role : Type 0 where
  slave_role master_role : Role

-- The answers of the adapters by name: whether configure_sync, start and stop return or raise.
pub record Adapters : Type 0 where
  pub supports_hw_sync : String → Bool
  pub configures : String → Role → Bool
  pub starts : String → Bool
  pub stops : String → Bool

pub data Exn : Type 0 where
  value_error runtime_error device_error : Exn

-- A call of an adapter's method.
pub data Call : Type 0 where
  configure_sync : String → Role → Call
  start stop : String → Call

abbrev pub member : String → List String → Bool
member n [] = false
member n (m ∷ ms) = str_eq m n || member n ms

pub data Seen : Type 0 where
  rejected : Seen
  accepted : List String → Seen

-- One name of a group: known, and in no group so far.
abbrev pub check_name : List String → String → List String → Seen
check_name known n seen =
    if not (member n known)
    then rejected
    else if member n seen
    then rejected
    else accepted (n ∷ seen)

unfoldable pub check_names : List String → List String → Seen → Seen
check_names known ns rejected = rejected
check_names known [] (accepted seen) = accepted seen
check_names known (n ∷ ns) (accepted seen) = check_names known ns (check_name known n seen)

unfoldable pub check_groups : List String → List Group → Seen → Seen
unfolding check_names
check_groups known [] seen = seen
check_groups known (g ∷ gs) seen =
    check_groups known gs (check_names known (g.master ∷ g.slaves) seen)

-- _validate_groups: does it return.
abbrev pub is_accepted : Seen → Bool
is_accepted rejected = false
is_accepted (accepted seen) = true

unfoldable pub validate_groups : List String → List Group → Bool
unfolding check_groups
validate_groups known groups = is_accepted (check_groups known groups (accepted []))

unfoldable pub grouped_order : List Group → List String
grouped_order [] = []
grouped_order (g ∷ gs) = g.slaves ++ g.master ∷ grouped_order gs

unfoldable pub ungrouped : List String → List String → List String
ungrouped grouped [] = []
ungrouped grouped (n ∷ ns) =
    let rest = ungrouped grouped ns in if member n grouped then rest else n ∷ rest

-- _start_order, for the keys of the adapters in insertion order.
unfoldable pub start_order : List String → List Group → List String
unfolding grouped_order ungrouped
start_order known groups = grouped_order groups ++ ungrouped (grouped_order groups) known

-- The manager after its constructor, and the calls that the adapters have had.
pub record Manager : Type 0 where
  pub names : List String
  pub groups : List Group
  pub order : List String
  pub started : Bool
  pub calls : List Call

unfoldable pub create : List String → List Group → List Call → Option Manager
create names groups calls =
    if validate_groups names groups
    then some (record {
      names = names;
      groups = groups;
      order = start_order names groups;
      started = false;
      calls = calls;
    })
    else none

abbrev pub Action : Type 0 → Type 0
Action A = Exec Manager Exn A

-- A call of an adapter, that returns or raises.
unfoldable pub call : Call → Bool → Action Unit
call c true m = (ok tt, record m { calls = m.calls ++ c ∷ [] })
call c false m = (err device_error, record m { calls = m.calls ++ c ∷ [] })

module _ (d : Adapters) where
  unfoldable pub configure : String → Role → Action Unit
  unfolding call
  configure n role =
      if d.supports_hw_sync n then call (configure_sync n role) (d.configures n role) else pure tt

  unfoldable pub configure_slaves : List String → Action Unit
  unfolding configure
  configure_slaves [] = pure tt
  configure_slaves (n ∷ ns) = configure n slave_role >> configure_slaves ns

  unfoldable pub configure_groups : List Group → Action Unit
  unfolding configure_slaves
  configure_groups [] = pure tt
  configure_groups (g ∷ gs) =
      configure_slaves g.slaves >> configure g.master master_role >> configure_groups gs

  -- Stop each, whatever the others do; a failure is only logged.
  unfoldable pub stop_all : List String → Manager → Manager
  unfolding call
  stop_all [] m = m
  stop_all (n ∷ ns) m = stop_all ns (call (stop n) (d.stops n) m).1

  -- The loop of starts; `so_far` is started_so_far, the last one first.
  unfoldable pub start_all : (so_far order : List String) → Action Unit
  unfolding call stop_all
  start_all so_far [] m = (ok tt, m)
  start_all so_far (n ∷ ns) m =
      let rest = start_all (n ∷ so_far) ns (call (start n) true m).1 in
      if d.starts n then rest else (err device_error, stop_all so_far (call (start n) false m).1)

  unfoldable pub launch : Action Unit
  unfolding configure_groups start_all
  launch m =
      (do
        configure_groups m.groups
        start_all [] m.order
        modify (λ s. record s { started = true }))
        m

  unfoldable pub start_manager : Action Unit
  unfolding launch
  start_manager m = if m.started then (err runtime_error, m) else launch m

  unfoldable pub stop_manager : Manager → Manager
  unfolding stop_all
  stop_manager m =
      if m.started then record (stop_all (reverse m.order) m) { started = false } else m

-- wait_until_calibrated
abbrev pub wait_until_calibrated : Manager → Bool
wait_until_calibrated m = true
