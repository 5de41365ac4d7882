-- ===== src/Status.antt =====
-- `dc_status_t` of include/libdivecomputer/common.h, and src/common.c.

pub data Status : Type 0 where
  success done unsupported invalid_args no_memory no_device no_access io timeout protocol : Status
  data_format cancelled : Status

-- An error that there already is is kept.
unfoldable pub dc_status_set_error : Status → Status → Status
dc_status_set_error success error = error
dc_status_set_error status error = status
