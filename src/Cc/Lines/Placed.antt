-- ===== src/Cc/Lines/Placed.antt =====
-- The directives of cc/asm.c keep the fixups in their sections, one behind the other.
use sandbox_stack.Cc.Asm.{Asm, Name}
use sandbox_stack.Cc.Instr.Encodable.{Returns}
use sandbox_stack.Cc.Instr.Placed.{IsPlaced, IsPlaced-IsStable}
use sandbox_stack.Cc.Lines.{Clib, directive}
use sandbox_stack.Cc.Stable.Directives.{directive-Returns}

-- If every fixup lies in its section and behind the earlier ones there, this holds again after
-- any directive that is accepted.
pub directive-IsPlaced :
    (lib : Clib) (d rest : Name) (s : Asm) → IsPlaced s → Returns IsPlaced (directive lib d rest s)
directive-IsPlaced = directive-Returns IsPlaced-IsStable
