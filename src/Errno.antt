-- ===== src/Errno.antt =====
-- The error codes of mdv_platform/mdv_errno.h. Success (`MDV_OK`) is a result of its own kind in
-- the models, so the type has the codes that report a failure.
pub data Errno : Type 0 where
  no_answer failed invalid_arg invalid_type enoent eagain closed eexist : Errno
  no_mem inprogress etimedout busy no_impl stack_overflow : Errno
