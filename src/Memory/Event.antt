-- ===== src/Memory/Event.antt =====
-- What the code writes to the kernel log: a level, the format, and its arguments (utils/klog.h).
use rainstorm_os.Base.{ℕ, String, List}

pub data Level : Type 0 where
  debug info warn error panic_level : Level

pub record Event : Type 0 where
  pub level : Level
  pub format : String
  pub args : List ℕ

abbrev pub event : Level → String → List ℕ → Event
event l f a = record { level = l; format = f; args = a }
