-- ===== src/Cc/Assemble/Whole.antt =====
-- `assemble_elf` of cc/asm.c from the text of a program to the file.
use sandbox_stack.Prelude.{ℕ, List, ◌≡◌, ◌⊎◌}
use sandbox_stack.Cc.Asm.{AsmError, Result, ok, stop}
use sandbox_stack.Cc.Elf.Image.{Linked}
use sandbox_stack.Cc.Stable.Lines.{InLimits}
use sandbox_stack.Cc.Assemble.{Assembly}
use sandbox_stack.Cc.Assemble.Inside.{IsInside}

-- How the assembly of a text ends, by what its lines come to
abbrev pub Assembled : Result Assembly → Result (List ℕ) → Type 0
Assembled lines file =
    ((e : AsmError) × (lines ≡ stop e) × (file ≡ stop e))
    ⊎ ((t : Assembly) × (lines ≡ ok t) × IsInside t.asm × InLimits t.asm × Linked t.asm file)
