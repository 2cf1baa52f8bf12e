-- ===== src/Cc/Instr/Placed.antt =====
-- The fixups that cc/asm.c records lie in their section, one behind the other.
use sandbox_stack.Prelude.{ℕ, suc, ◌+◌, ◌%◌, ◌≤◌, ◌≡◌, inl, inr, refl, ap, sym, subst, ◌∙◌, arith}
use sandbox_stack.Prelude.{Bool, true, false, Bool-cases, All, All-map, All-append, if◌then◌else◌}
use sandbox_stack.Prelude.{List, [], ◌∷◌, ◌++◌, none, length, length-append}
use sandbox_stack.Prelude.Int.{ℤ}
use sandbox_stack.Cc.Asm.{fits, Asm, Fixup, Name, Op, current, emit8, emits, add_fixup}
use sandbox_stack.Cc.Elf.{section, lookup}
use sandbox_stack.Cc.Lines.{here}
use sandbox_stack.Cc.Stable.{IsStable}
use sandbox_stack.Cc.Stable.Instructions.{instruction-Returns}
use sandbox_stack.Cc.Elf.Resolve.{Fits, Precedes, Separate}
use sandbox_stack.Cc.Instr.Integer.{instruction}
use sandbox_stack.Cc.Instr.Encodable.{Returns}

-- What the loop on the fixups relies on.
abbrev pub IsPlaced : Asm → Type 0
IsPlaced s = All (Fits s) s.fixups × Separate s.fixups

-- The same fixups, and sections that have not lost bytes.
abbrev pub Grows : Asm → Asm → Type 0
Grows s s' = (s'.fixups ≡ s.fixups) × ((c : Bool) → length (section c s) ≤ length (section c s'))

pub Grows-IsPlaced : (s s' : Asm) → Grows s s' → IsPlaced s → IsPlaced s'
Grows-IsPlaced s s' (same, more) (fits, apart) =
    let fits' : All (Fits s') s.fixups =
      All-map (Fits s) (Fits s') (λ f h. omega (arith, h, more f.in_text)) s.fixups fits in
    (subst (All (Fits s')) (sym same) fits', subst Separate (sym same) apart)

current-section : (s : Asm) → current s ≡ section s.in_text s
current-section s = elim (Bool-cases s.in_text) [
  | inl text ↦ rw text refl
  | inr other ↦ rw other refl
]

longer : (xs ys : List ℕ) → length xs ≤ length (xs ++ ys)
longer xs ys = omega (arith, length-append xs ys)

text-longer :
    (c : Bool) (xs : List ℕ) (s : Asm)
    → length (section c s) ≤ length (section c (record s { text = s.text ++ xs }))
text-longer true xs s = longer s.text xs
text-longer false xs s = omega arith

data-longer :
    (c : Bool) (xs : List ℕ) (s : Asm)
    → length (section c s) ≤ length (section c (record s { data_bytes = s.data_bytes ++ xs }))
data-longer true xs s = omega arith
data-longer false xs s = longer s.data_bytes xs

pub emit8-Grows :
    (v : ℕ) (s : Asm)
    → Grows s (emit8 v s)
      × (length (current (emit8 v s)) ≡ suc (length (current s)))
      × ((emit8 v s).in_text ≡ s.in_text)
emit8-Grows v s = elim (Bool-cases s.in_text) [
  | inl text ↦ rw text (
    (refl, (λ c. text-longer c ((v % 256) ∷ []) (record s { in_text = true }))),
    omega (arith, length-append s.text ((v % 256) ∷ [])),
    refl,
  )
  | inr other ↦ rw other (
    (refl, (λ c. data-longer c ((v % 256) ∷ []) (record s { in_text = false }))),
    omega (arith, length-append s.data_bytes ((v % 256) ∷ [])),
    refl,
  )
]

emits-Grows :
    (xs : List ℕ) (s : Asm)
    → Grows s (emits xs s)
      × (length (current (emits xs s)) ≡ length (current s) + length xs)
      × ((emits xs s).in_text ≡ s.in_text)
unfolding emits
emits-Grows [] s = ((refl, (λ c. omega arith)), omega arith, refl)
emits-Grows (x ∷ xs) s =
    let ((same1, more1), long1, at1) = emit8-Grows x s in
    let ((same2, more2), long2, at2) = emits-Grows xs (emit8 x s) in
    (
      (same2 ∙ same1, (λ c. omega (arith, more1 c, more2 c))),
      omega (arith, long1, long2),
      at2 ∙ at1,
    )

section-add_fixup :
    (name : Name) (addend : ℤ) (abs64 : Bool) (s : Asm) (c : Bool)
    → section c (add_fixup name addend abs64 s) ≡ section c s
unfolding add_fixup
section-add_fixup name addend abs64 s true = refl
section-add_fixup name addend abs64 s false = refl

Separate-append :
    (fs : List Fixup) (f : Fixup)
    → Separate fs
    → All (λ g. Precedes g f) fs
    → Separate (fs ++ (f ∷ []))
Separate-append [] f h k = (tt, tt)
Separate-append (g ∷ fs) f h k =
    (All-append (Precedes g) fs (f ∷ []) h.0 (k.0, tt), Separate-append fs f h.1 k.1)

-- A fixup, and at least the bytes that it covers.
pub fixup-IsPlaced :
    (name : Name) (addend : ℤ) (abs64 : Bool) (bs : List ℕ) (s : Asm)
    → (if abs64 then 8 else 4) ≤ length bs
    → IsPlaced s
    → IsPlaced (emits bs (add_fixup name addend abs64 s))
unfolding add_fixup
fixup-IsPlaced name addend abs64 bs s room (fits, apart) =
    let f : Fixup = record {
      in_text = s.in_text;
      off = length (current s);
      name = name;
      addend = addend;
      abs64 = abs64;
    } in
    let s1 = add_fixup name addend abs64 s in
    let s2 = emits bs s1 in
    let ((same, more), long, at) = emits-Grows bs s1 in
    let here : Fits s2 f =
      let e : length (current s2) ≡ length (section s.in_text s2) =
        ap length (current-section s2) ∙ ap (λ c. length (section c s2)) at in
      omega (arith, long, e, room) in
    let old : All (Fits s2) s.fixups =
      All-map (Fits s) (Fits s2)
        (λ g h.
          omega
            (arith, h, more g.in_text, ap length (section-add_fixup name addend abs64 s g.in_text)))
        s.fixups fits in
    let before : All (λ g. Precedes g f) s.fixups =
      All-map (Fits s) (λ g. Precedes g f)
        (λ g h e. omega (arith, h, ap (λ c. length (section c s)) e, ap length (current-section s)))
        s.fixups fits in
    (
      subst (All (Fits s2)) (sym same) (All-append (Fits s2) s.fixups (f ∷ []) old (here, tt)),
      subst Separate (sym same) (Separate-append s.fixups f apart before),
    )

pub emits-IsPlaced : (xs : List ℕ) (s : Asm) → IsPlaced s → IsPlaced (emits xs s)
emits-IsPlaced xs s h = Grows-IsPlaced s (emits xs s) (emits-Grows xs s).0 h

moves-IsPlaced :
    (in_text cur_bss : Bool) (n : ℕ) (s : Asm)
    → s.bss_len ≤ n
    → IsPlaced s
    → IsPlaced (record s { in_text = in_text; cur_bss = cur_bss; bss_len = n })
moves-IsPlaced in_text cur_bss n s up h = Grows-IsPlaced s moved (refl, longer_sections) h
  where
    moved : Asm
    moved = record s { in_text = in_text; cur_bss = cur_bss; bss_len = n }

    longer_sections : (c : Bool) → length (section c s) ≤ length (section c moved)
    longer_sections true = omega arith
    longer_sections false = omega arith

symbol-IsPlaced :
    (name : Name) (s : Asm)
    → lookup name s.syms ≡ none
    → IsPlaced s
    → IsPlaced (record s { syms = s.syms ++ ((name, here s) ∷ []) })
symbol-IsPlaced name s new h = Grows-IsPlaced s defined (refl, longer_sections) h
  where
    defined : Asm
    defined = record s { syms = s.syms ++ ((name, here s) ∷ []) }

    longer_sections : (c : Bool) → length (section c s) ≤ length (section c defined)
    longer_sections true = omega arith
    longer_sections false = omega arith

pub IsPlaced-IsStable : IsStable IsPlaced
IsPlaced-IsStable = record {
  bytes = emits-IsPlaced;
  covered = fixup-IsPlaced;
  moves = moves-IsPlaced;
  symbol = symbol-IsPlaced;
}

-- If every fixup lies in its section and behind the earlier ones there, this holds again after
-- any instruction that is accepted.
pub instruction-IsPlaced :
    (mn rest : Name) (ops : List Op) (s : Asm)
    → IsPlaced s
    → Returns IsPlaced (instruction mn rest ops s)
instruction-IsPlaced = instruction-Returns IsPlaced-IsStable
