-- ===== src/Acpi/Status.antt =====
-- The results that kernel/src/acpi gives the ACPI library.
pub data Status : Type 0 where
  success invalid_argument not_found already_exists timeout unimplemented : Status
