-- ===== src/Shell/Keeps.antt =====
-- What the commands do to the client.
use black_circle.Shell.{Shell}
