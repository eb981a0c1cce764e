-- ===== src/ErrorCode.antt =====
-- crates/princess-core/src/error.rs: the codes that every failure of the engine carries. A failing
-- function returns its code; the message and the detail beside it are text and are left out.
use Prim.Native.String.{String}

pub data ErrorCode : Type 0 where
  toolchain_missing build_failed qemu_failed timeout not_found invalid_config sandbox_denied
        cancelled ai_unavailable internal :
      ErrorCode

unfoldable pub as_str : ErrorCode → String
as_str toolchain_missing = "E_TOOLCHAIN_MISSING"
as_str build_failed = "E_BUILD_FAILED"
as_str qemu_failed = "E_QEMU_FAILED"
as_str timeout = "E_TIMEOUT"
as_str not_found = "E_NOT_FOUND"
as_str invalid_config = "E_INVALID_CONFIG"
as_str sandbox_denied = "E_SANDBOX_DENIED"
as_str cancelled = "E_CANCELLED"
as_str ai_unavailable = "E_AI_UNAVAILABLE"
as_str internal = "E_INTERNAL"
