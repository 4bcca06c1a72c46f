-- ===== src/Gdt.antt =====
-- kernel/src/gdt.rs: the table of segment descriptors, the task state, and what `init` loads.
use prometheos.Base.{ℕ, ◌-◌, ◌*◌, ◌%◌, ◌^◌, Bool, true, Option, Result, ok, ◌>>=◌, add64}
use prometheos.Locks.Singleton.{install, with_value}

pub record GlobalDescriptorTable (D D64 : Type 0) : Type 0 where
  pub null : D
  pub kernel_code : D
  pub kernel_data : D
  pub user_code_32bit : D
  pub user_data : D
  pub user_code : D
  pub tss : D64

pub data Ring : Type 0 where
  ring0 ring3 : Ring

-- The x86 crate's builder `B` of descriptors, of which the code asks for code that can be read, and
-- data that can be written; and its selectors.
pub record Descriptors (B D D64 : Type 0) : Type 0 where
  pub null : D
  pub code_descriptor : (base limit : ℕ) → B
  pub data_descriptor : (base limit : ℕ) → B
  pub tss_descriptor : (base limit : ℕ) → (available : Bool) → B
  pub present : B → B
  pub dpl : Ring → B → B
  pub l : B → B
  pub db : B → B
  pub limit_granularity_4kb : B → B
  pub finish : B → D
  pub finish64 : B → D64
  pub selector : (index : ℕ) → Ring → ℕ

abbrev pub ist_stack_size : ℕ
ist_stack_size = 4096 * 4

-- The fields of `TaskStateSegment` that the code sets.
pub record Tss : Type 0 where
  pub ist0 : ℕ
  pub iomap_base : ℕ

-- The statics, and the processor's registers: the table's address and the selectors.
pub record Segments (D D64 : Type 0) : Type 0 where
  pub tss : Option Tss
  pub gdt : Option (GlobalDescriptorTable D D64)
  pub gdtr : ℕ
  pub cs : ℕ
  pub ss : ℕ
  pub ds : ℕ
  pub es : ℕ
  pub fs : ℕ
  pub gs : ℕ
  pub tr : ℕ

module _ {B D D64 : Type 0} (x : Descriptors B D D64) where
  -- The table, with the task state's address and size.
  unfoldable pub table : (tss_address tss_size : ℕ) → GlobalDescriptorTable D D64
  table tss_address tss_size =
      let code_segment = x.present (x.code_descriptor 0 0xFFFFF) in
      let data_segment = x.present (x.data_descriptor 0 0xFFFFF) in
      record {
        null = x.null;
        kernel_code = x.finish (x.limit_granularity_4kb (x.l (x.dpl ring0 code_segment)));
        kernel_data = x.finish (x.limit_granularity_4kb (x.dpl ring0 data_segment));
        user_code_32bit = x.finish (x.limit_granularity_4kb (x.db (x.dpl ring3 code_segment)));
        user_data = x.finish (x.limit_granularity_4kb (x.dpl ring3 data_segment));
        user_code = x.finish (x.limit_granularity_4kb (x.l (x.dpl ring3 code_segment)));
        tss =
            x.finish64 (x.dpl ring0 (x.present (x.tss_descriptor tss_address (tss_size - 1) true)));
      }

  -- The registers that `init` loads.
  unfoldable pub load : (gdt_address : ℕ) → Segments D D64 → Segments D D64
  load gdt_address s = record s {
    gdtr = gdt_address;
    cs = x.selector 1 ring0;
    ss = x.selector 2 ring0;
    ds = 0;
    es = 0;
    fs = 0;
    gs = 0;
    tr = x.selector 6 ring0;
  }

  -- `stack_bottom`, `tss_address` and `gdt_address` are where the statics lie, and `tss_size` is the
  -- size of `TaskStateSegment`, which is above 0.
  unfoldable pub init :
      (stack_bottom tss_address tss_size gdt_address : ℕ) → Segments D D64 → Result (Segments D D64)
  unfolding table load install with_value
  init stack_bottom tss_address tss_size gdt_address s = do
    stack_top ← add64 stack_bottom ist_stack_size
    tss ← install s.tss (record { ist0 = stack_top; iomap_base = tss_size % 2 ^ 16 })
    (table', tss') ← with_value (λ t. (table tss_address tss_size, t)) tss
    gdt ← install s.gdt table'
    (address, gdt') ← with_value (λ t. (gdt_address, t)) gdt
    ok (load address (record s { tss = tss'; gdt = gdt' }))
