-- ===== src/Posix.antt =====
-- What the system calls return: a value or an errno. The kernel's choices are arguments of the
-- operations that make the calls.
pub data Errno : Type 0 where
  eintr eagain einval eio enodev eshutdown epipe econnreset ebusy enoent : Errno
  ecanceled enotconn enomem other : Errno

pub data Outcome {ℓ} (A : Type ℓ) : Type ℓ where
  done : A → Outcome A
  failed : Errno → Outcome A
