-- ===== src/Sync/Tests.antt =====
-- The sync manager on a rig of four devices.
use robolineage.Prelude.{◌≡◌, refl, String, true, false, not, some, List, [], ◌∷◌, str_eq, arith}
use robolineage.Sync.{
  Group, Adapters, Manager, check_names, check_groups, validate_groups, grouped_order, ungrouped,
  start_order, create, start_manager,
}
use robolineage.Sync.Lifecycle.{
  sync_calls, until_failure, started_outcome, mark_started, start_outcome,
}
use robolineage.Sync.Order.{count, create_complete}

abbrev names : List String
names = "arm" ∷ "front" ∷ "left" ∷ "right" ∷ []

abbrev cameras : Group
cameras = record { name = "cameras"; master = "front"; slaves = "left" ∷ "right" ∷ [] }

abbrev rig : Manager
rig = record {
  names = names;
  groups = cameras ∷ [];
  order = "left" ∷ "right" ∷ "front" ∷ "arm" ∷ [];
  started = false;
  calls = [];
}

create-rig : create names (cameras ∷ []) [] ≡ some rig
unfolding create validate_groups check_groups check_names start_order grouped_order ungrouped
create-rig = refl

create_complete_example : count "front" rig.order ≡ 1
create_complete_example =
    create_complete names (cameras ∷ []) [] rig "front" (omega arith) create-rig

-- The front camera does not start, and the left one does not stop.
abbrev broken : Adapters
broken = record {
  supports_hw_sync = (λ n. not (str_eq n "arm"));
  configures = (λ n role. true);
  starts = (λ n. not (str_eq n "front"));
  stops = (λ n. not (str_eq n "left"));
}

start_outcome_example :
    start_manager broken rig
    ≡ mark_started (
        started_outcome broken []
          (record rig { calls = sync_calls broken rig.groups })
          (until_failure broken rig.order))
start_outcome_example = start_outcome broken rig (λ n role. refl)

abbrev running : Manager
running = record rig { started = true }
