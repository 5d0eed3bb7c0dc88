-- ===== src/Coap/RootPath.antt =====
-- The packet of a message whose destination has no segments.
use paum_io_t.World.{World}
use paum_io_t.Message.{Message}
