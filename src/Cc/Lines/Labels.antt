-- ===== src/Cc/Lines/Labels.antt =====
-- The symbols that define_sym of cc/asm.c defines.
use sandbox_stack.Prelude.{◌≡◌, ◌⊎◌, subst, Option-cases, inl, inr, refl, arith, Bool-cases}
use sandbox_stack.Prelude.{
  true, false, ◌==◌, List, [], ◌∷◌, ◌++◌, some, none, length, if◌then◌else◌,
}
use sandbox_stack.Cc.Asm.{Asm, Name, Sym, ok, stop, duplicate_symbol}
use sandbox_stack.Cc.Elf.{same, lookup}
use sandbox_stack.Cc.Lines.{here, define_sym}

same_refl : (s : Name) → same s s ≡ true
unfolding same
same_refl [] = refl
same_refl (c ∷ s) = let one : c == c ≡ true = ground arith in rw one (rw (same_refl s) refl)

-- A new symbol is found where it was defined.
lookup-new :
    (name : Name) (t : Sym) (syms : List (Name × Sym))
    → lookup name syms ≡ none
    → lookup name (syms ++ ((name, t) ∷ [])) ≡ some t
unfolding lookup
lookup-new name t [] h = rw (same_refl name) refl
lookup-new name t ((key, value) ∷ rest) h = elim (Bool-cases (same key name)) [
  | inl found ↦
      let bad : some value ≡ none =
        subst (λ b. (if b then some value else lookup name rest) ≡ none) found h in
      cc
  | inr other ↦
      let left = subst (λ b. (if b then some value else lookup name rest) ≡ none) other h in
      rw other (lookup-new name t rest left)
]

-- The others are found as before.
lookup-other :
    (name other : Name) (t : Sym) (syms : List (Name × Sym))
    → same name other ≡ false
    → lookup other (syms ++ ((name, t) ∷ [])) ≡ lookup other syms
unfolding lookup
lookup-other name other t [] h = rw h refl
lookup-other name other t ((key, value) ∷ rest) h = rw (lookup-other name other t rest h) refl

-- The symbol lies at the end of the section that the assembler is in: 2 is .bss, which has a length
-- only, 0 the text and 1 the data.
abbrev pub AtEnd : Asm → Sym → Type 0
AtEnd s u =
    (s.cur_bss ≡ true) × (u.sec ≡ 2) × (u.off ≡ s.bss_len)
    ⊎ (s.cur_bss ≡ false) × (s.in_text ≡ true) × (u.sec ≡ 0) × (u.off ≡ length s.text)
    ⊎ (s.cur_bss ≡ false) × (s.in_text ≡ false) × (u.sec ≡ 1) × (u.off ≡ length s.data_bytes)

here-AtEnd : (s : Asm) → AtEnd s (here s)
here-AtEnd s = elim (Bool-cases s.cur_bss) [
  | inl bss ↦ rw bss (inl (refl, refl, refl))
  | inr other ↦ elim (Bool-cases s.in_text) [
    | inl text ↦ rw (other, text) (inr (inl (refl, refl, refl, refl)))
    | inr data_section ↦ rw (other, data_section) (inr (inr (refl, refl, refl, refl)))
  ]
]

-- What define_sym promises of a name
abbrev pub Defined : Name → Asm → Asm → Type 0
Defined name s t =
    (lookup name s.syms ≡ none)
    × (lookup name t.syms ≡ some (here s))
    × AtEnd s (here s)
    × ((other : Name) → same name other ≡ false → lookup other t.syms ≡ lookup other s.syms)
    × (t ≡ record s { syms = t.syms })

-- A name that is defined already is refused; any other name is defined at the end of the current
-- section, the other names are found as before, and nothing but the symbols changes.
pub define_sym_lem :
    (name : Name) (s : Asm)
    → ((u : Sym) × (lookup name s.syms ≡ some u) × (define_sym name s ≡ stop duplicate_symbol))
      ⊎ ((t : Asm) × (define_sym name s ≡ ok t) × Defined name s t)
unfolding define_sym
define_sym_lem name s = elim (Option-cases (lookup name s.syms)) [
  | inl absent ↦ inr (
    record s { syms = s.syms ++ ((name, here s) ∷ []) },
    rw absent refl,
    (
      absent,
      lookup-new name (here s) s.syms absent,
      here-AtEnd s,
      (λ other apart. lookup-other name other (here s) s.syms apart),
      refl,
    ),
  )
  | inr (u, present) ↦ inl (u, present, rw present refl)
]
