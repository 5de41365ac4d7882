-- ===== src/Suunto/Safe.antt =====
-- `suunto_common_extract_dives` of src/suunto_common.c stays inside of its memory.
use libdivecomputer.Status.{Status}
