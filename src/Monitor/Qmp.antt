-- ===== src/Monitor/Qmp.antt =====
-- crates/princess-bin/src/monitor.rs: the QMP replies. `serde_json::from_str`, which is not part of the
-- repository, is the parameter `from_str`; its error is the text that it prints.
use princess_ide.Prelude.{
  ℕ, ◌+◌, ◌-◌, ◌^◌, Bool, Option, none, some, List, ◌++◌, ltb, Result, ok, ◌>>=◌, map_err, take,
  min,
}
use princess_ide.Str.{codes}
use princess_ide.Framing.{decimal}
use princess_ide.Monitor.Lines.{ParseError, json_error}

pub record QmpVersion : Type 0 where
  pub major : ℕ
  pub minor : ℕ
  pub micro : ℕ
  pub package_name : Option (List ℕ)

-- `{}.{}.{}` of three `u32`, which have no more than ten digits.
unfoldable pub version_string : QmpVersion → List ℕ
unfolding decimal
version_string v =
    decimal 10 v.major ++ (codes "." ++ (decimal 10 v.minor ++ (codes "." ++ decimal 10 v.micro)))

pub record QmpMemorySummary : Type 0 where
  pub base_memory : ℕ
  pub plugged_memory : Option ℕ

abbrev pub max_u64 : ℕ
max_u64 = 2 ^ 64 - 1

abbrev pub unwrap_or : Option ℕ → ℕ → ℕ
unwrap_or none d = d
unwrap_or (some n) d = n

-- `saturating_add`.
unfoldable pub total : QmpMemorySummary → ℕ
total m = min (m.base_memory + unwrap_or m.plugged_memory 0) max_u64

unfoldable pub contains_physical : QmpMemorySummary → ℕ → Bool
unfolding total
contains_physical m physical_address = ltb physical_address (total m)

-- The error of each of the four parsers, on the first 120 characters of the text.
unfoldable pub json_failure : List ℕ → List ℕ → List ℕ → ParseError
json_failure context json message = record {
  context = context;
  line = 0;
  byte_offset = 0;
  text = take 120 json;
  reason = json_error message;
}

-- `Raw` and `Inner` of `parse_qmp_version`.
pub record RawVersion : Type 0 where
  pub qemu : ℕ × ℕ × ℕ
  pub package_name : Option (List ℕ)

unfoldable pub parse_qmp_version :
    (List ℕ → Result (List ℕ) RawVersion) → List ℕ → Result ParseError QmpVersion
unfolding json_failure
parse_qmp_version from_str json = do
  raw ← map_err (json_failure (codes "qmp query-version") json) (from_str json)
  ok (record {
    major = raw.qemu.0;
    minor = raw.qemu.1;
    micro = raw.qemu.2;
    package_name = raw.package_name;
  })

pub record QmpStatus : Type 0 where
  pub status : List ℕ
  pub running : Option Bool
  pub singlestep : Option Bool

unfoldable pub parse_qmp_status :
    (List ℕ → Result (List ℕ) QmpStatus) → List ℕ → Result ParseError QmpStatus
unfolding json_failure
parse_qmp_status from_str json =
    map_err (json_failure (codes "qmp query-status") json) (from_str json)

unfoldable pub parse_qmp_memory_summary :
    (List ℕ → Result (List ℕ) QmpMemorySummary) → List ℕ → Result ParseError QmpMemorySummary
unfolding json_failure
parse_qmp_memory_summary from_str json =
    map_err (json_failure (codes "qmp query-memory-size-summary") json) (from_str json)
