-- ===== src/Dataset/Policy/Lineage.antt =====
-- The metadata written for a policy names the dataset that it was trained on.
use robolineage.Prelude.Result.{Result}
use robolineage.Prelude.Dict.{Dict}
