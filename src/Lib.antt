-- ===== src/Lib.antt =====
-- sandbox-stack runs a C program in a confined process: cc/ compiles it to WebAssembly, w2c2/
-- translates the WebAssembly back to C, which calls the operations of rt/w2c2_base.h, and host/main.c
-- runs the result under strict seccomp. This library models the parts of that chain that the
-- confinement rests on, and the parts that meet at a file format.
--
-- Parts
--   Prelude       what the files share: the native numbers with Boolean tests (Tests), lists (Lists),
--                 bit masks (Bits), integers (Int) and well-foundedness (Order).
--   Bytes         the byte loops memcpy, memmove and memset of host/main.c on a store of bytes, which
--                 libc/libc.c repeats.
--   Runtime       rt/w2c2_base.h: traps; linear memory and its bulk operations (Memory); the 23 loads
--                 and stores (Access); function tables (Table); division, rotations and counts of zeros
--                 (Arith).
--   Host          host/main.c: system calls and imports (Host), `cmain` and what a guest can do (Guest),
--                 the calls that the process may make (Confined), the whole process (Sandbox).
--   Libc          libc/libc.c: malloc, calloc and realloc over linear memory (Alloc), with the byte
--                 loops they call (Loops), and the string functions (Str).
--   Groups, Cc    LEB128 in plain arithmetic, and the byte buffers of cc/codegen.c with its writers
--                 (ByteBuf).
--   Cc.Asm        the encoder of cc/asm.c: its sections, `encode`, an independent decoder of the
--                 instruction format (Decode) and the round trip between the two (RoundTrip).
--   Cc.Instr      `instruction` of cc/asm.c on parsed operands: the helpers, `alu` and `mov` (Instr),
--                 `movx`, `sse` and the single instructions (Choose), which of them takes a mnemonic
--                 (Dispatch, Integer). Theorems: the format of what is chosen (Encodable, Chosen,
--                 Whole), immediates (Immediate), the places of fixups (Placed).
--   Cc.Lines      `directive` of cc/asm.c and what it calls (Lines); the symbols it defines (Labels), the
--                 loop of .align (Align), the places of fixups (Placed).
--   Cc.Syntax     operands of cc/asm.c from their text, and what instruction makes of them; the sizes
--                 of what is parsed (Parsed), the instruction decoded (Decoded).
--   Cc.Stable     properties of the assembler's state that bytes, fixups, moves between sections and
--                 new symbols keep: so do the instructions, directives and lines.
--   Cc.Assemble   `assemble_line` and `assemble_elf` of cc/asm.c; symbols in their sections (Inside),
--                 numeric labels (Numeric), the whole way to the file (Whole).
--   Cc.Elf        the end of `assemble_elf` in cc/asm.c: layout, fixups (Put, Resolve) and the file
--                 (Image).
--   Cc.Codegen    expressions in the wasm backend cc/codegen.c: value classes, the table of types, and the
--                 helpers that write code (Codegen); `gen_expr`, `gen_addr` and `gen_funcall` (Expr);
--                 the validation of wasm code (Validate) and how typed code is composed (Typed);
--                 the typing of conversions (Typing), memory accesses (Access), values (Parts), binary
--                 operators (Operations), calls (Calls, Arguments), assignments (Assigned) and the other
--                 cases (Cases); what the types of an expression have to be (WellTyped), and whole
--                 expressions (Sound).
--   W2c2          w2c2/buffer.h (Buffer), w2c2/leb128.h (Leb128) and the reader of wasm modules,
--                 w2c2/reader.c (Reader): its errors and primitives (Parse), the module it builds
--                 (Module), the readers of single entries (Entries), of sections (Sections) and of the
--                 file (File). Theorems on it: what readers consume (Advance, Format, Accept), a
--                 function's code (Code), type indices (Ensure, Typed).
--   Wire          what cc/ writes is what w2c2/ reads: integers (Wire), names and sections (Framing).
--   Tests         runs on concrete inputs, and the theorems applied to such inputs.
--
-- Correspondence. A C function has the name of its definition in snake case, less the prefix wasm:
-- the function wasmReadTypeSection is `read_type_section`, env__read is `env_read`. Words are
-- native numbers below 2^32 or 2^64, with `%` where the C wraps; an I32 is its bit pattern. The
-- arena is a function from addresses to bytes. A call that traps, and undefined behaviour
-- (`fault`), are results. The buffer of the reader is the list of the bytes that are left: the
-- calls of bufferSkipUnchecked stand behind a test of the length, but for the one for a function's
-- code, which can fault. The reader's error pointer is a result type. In the assembler an error is
-- a result too, since asm_error ends the program; `instruction` first chooses what it writes and
-- then writes it, where the C does both at once; registers, displacements and immediates are
-- integers; the symbols are a list in the order of their definition, for the hash map. Every reader
-- takes an allocator, which says of each call of calloc whether it succeeds. In the wasm backend an
-- instruction is what one call of a helper writes, a type is its kind, size and sign, a type entry
-- stands for its bytes, and an error or `unreachable()` is `none`; the locals and the maps of
-- functions and globals are the record Env.
--
-- Parameters. The kernel, which answers each system call by the calls before it; of it the theorems
-- ask that a read yields no more bytes than were asked for. The translated guest, which is any sequence
-- of runtime operations and imports. The strtol, strtoull, isspace, isdigit, isalnum and
-- %d of the C library: only the theorem on numeric labels asks of them that a digit is one, and
-- neither it nor the letters f and b is a space. The allocator of the reader, of which nothing is asked.
--
-- Bounds and fuel. `buf_uleb` and `buf_sleb` loop until the number is used up: 5 rounds are enough for
-- 32 bits and 10 for 64. The reader's loop over sections has a round for each byte and one; a
-- section takes two bytes at least. The counts of zeros have a round for each bit of the word,
-- and those of strings a round for each byte and one. The loop of .align has a round for each byte
-- of the alignment.
--
-- Limits of the assembler. A section of more than 2^30 bytes and the lookup of a NULL name, which C
-- does not define, are results, and so is a length of more than 2^31 - 1 that `align_to` gets:
-- there the C converts it to an int and goes on, and the model ends.
--
-- Not modelled: the compiler but for its byte buffers, the expressions of its wasm backend and its
-- assembler; the emission of C, the population count, floating point, SHA1 (of which the hashed bytes
-- are kept), the name section, which is read only with the debug option, printed messages, and the
-- freeing of memory.
pub mod Prelude
pub mod Bytes
pub mod Runtime
pub mod Host
pub mod Groups
pub mod W2c2
pub mod Cc
pub mod Wire
pub mod Libc
pub mod Tests
