-- ===== src/Paths/Create.antt =====
-- Where `path_resolve` of fs/path.c creates a file.
use mint.Memory.{Memory}
