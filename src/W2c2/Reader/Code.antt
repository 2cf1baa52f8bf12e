-- ===== src/W2c2/Reader/Code.antt =====
-- One function body of the code section (`wasmReadCodeSection` of w2c2/reader.c).
use sandbox_stack.Prelude.{ℕ, ◌+◌, ◌-◌, ◌^◌, ◌≤◌, ◌<◌, ◌≡◌, ◌⊎◌, inl, inr, sym, ap, ◌∙◌, arith}
use sandbox_stack.Prelude.{
  List, ◌++◌, length, take, drop, ltb, length-append, length-take, take-drop,
}
use sandbox_stack.Prelude.{take-append, Bool-cases, not_lt→ltb}
use sandbox_stack.W2c2.Buffer.{skip_unchecked}
use sandbox_stack.W2c2.Reader.Parse.{ok, err, fault, Allocator, invalid_code_section_code_size}
use sandbox_stack.W2c2.Reader.Module.{Function, LocalsDeclaration}
use sandbox_stack.W2c2.Reader.Sections.{
  take_unchecked, sub32, read_sized_code, read_code_locals_declarations,
}

-- The bytes behind the locals, when those have taken `pre` and what is left of the body is `left`.
take_inside : (n : ℕ) (c : List ℕ) → n ≤ length c → take_unchecked n c ≡ ok (take n c) (drop n c)
unfolding take_unchecked skip_unchecked
take_inside n c h = rw (not_lt→ltb (length c) n (omega arith))

take_outside : (n : ℕ) (c : List ℕ) → length c < n → take_unchecked n c ≡ fault
unfolding take_unchecked
take_outside n c h = ground arith

-- In a file below 2^32 bytes, where the locals' declarations of a body take the bytes `pre` and leave
-- `c`: a size past the end of the file is an error. A size that the declarations fit into gives a
-- function with the locals, whose code is the rest of the body and whose hash covers
-- declarations and code, and leaves what is behind the body. A size that the declarations run
-- past is undefined behaviour: the buffer is advanced past its end.
pub read_sized_code_lem :
    (alloc : Allocator) (file_length code_start size : ℕ) (f : Function)
    (locals : List LocalsDeclaration) (pre c : List ℕ)
    → length (pre ++ c) < 2 ^ 32
    → read_code_locals_declarations alloc (pre ++ c) ≡ ok locals c
    → (length (pre ++ c) < size)
        × (read_sized_code file_length code_start f
              (read_code_locals_declarations alloc)
              size
              (pre ++ c)
            ≡ err invalid_code_section_code_size)
      ⊎ ((code rest : List ℕ) × (c ≡ code ++ rest)
          × (length pre + length code ≡ size)
          × (read_sized_code file_length code_start f
                (read_code_locals_declarations alloc)
                size
                (pre ++ c)
              ≡ ok
                  (record f {
                    locals_declarations = locals;
                    code = code;
                    start = file_length - length c - code_start;
                    hashed = pre ++ code;
                  })
                  rest))
      ⊎ (size < length pre)
        × (size ≤ length (pre ++ c))
        × (read_sized_code file_length code_start f
              (read_code_locals_declarations alloc)
              size
              (pre ++ c)
            ≡ fault)
unfolding read_sized_code
read_sized_code_lem alloc file_length code_start size f locals pre c small e =
    elim (Bool-cases (ltb (length (pre ++ c)) size)) [
      | inl past ↦ inl (ground arith, rw past)
      | inr within ↦ elim (Bool-cases (ltb size (length pre))) [
        | inl over ↦ inr (
            inr (
              ground arith,
              ground arith,
              rw (
                within,
                e,
                take_outside (sub32 size (length (pre ++ c) - length c)) c
                    (ground (arith, length-append {0} pre c)),
              ),
            ))
        | inr fits ↦
            let n = size - length pre in
            let whole : sub32 size (length (pre ++ c) - length c) ≡ n =
              ground (arith, length-append {0} pre c) in
            let body : size ≡ length pre + n = ground arith in
            let room : n ≤ length c = ground (arith, length-append {0} pre c) in
            inr (
              inl (
                take n c,
                drop n c,
                sym (take-drop n c),
                omega (arith, length-take n c),
                rw (within, e, whole, take_inside n c room)
                    (ap
                      (λ t.
                        ok
                          (record f {
                            locals_declarations = locals;
                            code = take n c;
                            start = file_length - length c - code_start;
                            hashed = t;
                          })
                          (drop n c))
                      (ap (λ k. take k (pre ++ c)) body ∙ take-append pre c n)),
              ))
      ]
    ]
