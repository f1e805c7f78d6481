-- ===== src/Metadata/Log.antt =====
-- The commands of the log of one replica group, applied in order to a state.
use picomq.Prelude.{ℕ}
use picomq.Metadata.Command.{MetadataCommand}
use picomq.Metadata.State.{MetadataState}
use picomq.Metadata.Apply.{apply}
use picomq.Metadata.Kept.{Kept, Fits}
use picomq.Metadata.Kept.Apply.{apply-keeps}

-- `Log noop s t`: some commands lead from `s` to `t`, accepted or refused, and no counter passes
-- the end of its machine type.
pub data Log (noop_object_id : ℕ) : MetadataState → MetadataState → Type 0 where
  done : {s : MetadataState} → Log noop_object_id s s
  step :
      {s t : MetadataState} (c : MetadataCommand)
      → Fits s c
      → Log noop_object_id (apply noop_object_id s c).0 t
      → Log noop_object_id s t

pub Log-keeps :
    {P : MetadataState → Type 0}
    → Kept P
    → (noop : ℕ) {s t : MetadataState} → Log noop s t
    → P s
    → P t
Log-keeps K noop Log.done h = h
Log-keeps K noop (Log.step c fits rest) h = Log-keeps K noop rest (apply-keeps K _ h noop c fits)
