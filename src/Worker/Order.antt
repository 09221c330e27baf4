-- ===== src/Worker/Order.antt =====
-- The order of the reviews.
use robolineage.Prelude.{List}
use robolineage.Worker.{Worker}
use robolineage.Worker.Moves.{Moves}
