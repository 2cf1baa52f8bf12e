-- ===== src/Cc/Elf/Resolve.antt =====
-- What the loop on the fixups of cc/asm.c leaves in the two sections.
use sandbox_stack.Prelude.{
  ℕ, ◌+◌, ◌%◌, ◌^◌, ◌≤◌, ◌<◌, ◌≡◌, ◌⊎◌, inl, inr, refl, ap, sym, subst, ◌∙◌, arith,
}
use sandbox_stack.Prelude.{Bool, true, false, Bool-cases, Option-cases, if◌then◌else◌, All, Any}
use sandbox_stack.Prelude.{All-map, ltb, leb, leb→le, List, [], ◌∷◌, some, none, length, take}
use sandbox_stack.Prelude.Int.{pattern, signed}
use sandbox_stack.Bytes.{bytes_of, number_of}
use sandbox_stack.Bytes.Laws.{length-bytes_of, number_of-bytes_of}
use sandbox_stack.Cc.Asm.{
  Name, Asm, Fixup, Sym, ok, stop, fits, undefined_symbol, relocation_out_of_range, null_symbol,
  null_name,
}
use sandbox_stack.Cc.Asm.Operands.{signed_word}
use sandbox_stack.Cc.Elf.{
  Layout, same, section, set_section, lookup, put, resolve_to, resolve, relative, target_of,
  place_of,
}
use sandbox_stack.Cc.Elf.Put.{field, field-put, field-before, drop-put, length-put}

-- The bytes that the fixup covers.
abbrev pub width : Fixup → ℕ
width f = if f.abs64 then 8 else 4

abbrev pub Fits : Asm → Fixup → Type 0
Fits s f = f.off + width f ≤ length (section f.in_text s)

-- The fixup `g` starts where `f` ends, or later, if they share a section.
abbrev pub Precedes : Fixup → Fixup → Type 0
Precedes f g = f.in_text ≡ g.in_text → f.off + width f ≤ g.off

abbrev pub Separate : List Fixup → Type 0
Separate [] = Unit {0}
Separate (f ∷ fs) = All (Precedes f) fs × Separate fs

-- Where the bytes of the fixup lead: to an address, or to a distance from the fixup's place.
abbrev pub led : Layout → Asm → Fixup → Bool → ℕ
led l s f true = number_of (field f.off 8 (section f.in_text s))
led l s f false =
    (place_of l f + pattern 64 (signed (2 ^ 31) (number_of (field f.off 4 (section f.in_text s)))))
    % 2 ^ 64

abbrev pub Reaches : Layout → Asm → Fixup → Sym → Type 0
Reaches l s f t = led l s f f.abs64 ≡ target_of l f t

-- The fixup does not touch the `n` bytes from `i`.
abbrev pub Clear : Bool → ℕ → ℕ → Fixup → Type 0
Clear c i n f = f.in_text ≡ c → (i + n ≤ f.off) ⊎ (f.off + width f ≤ i)

abbrev pub Keeps : List Fixup → Asm → Asm → Type 0
Keeps fs s s' =
    (s'.syms ≡ s.syms)
    × ((c : Bool) → length (section c s') ≡ length (section c s))
    × ((c : Bool) (i n : ℕ)
        → All (Clear c i n) fs
        → field i n (section c s') ≡ field i n (section c s))

-- The distance is out of the reach of four bytes.
abbrev pub IsFar : Layout → Fixup → Sym → Type 0
IsFar l f t =
    (f.abs64 ≡ false) × (fits (2 ^ 31) (relative (target_of l f t) (place_of l f)) ≡ false)

-- Adding what was subtracted, on addresses.
sub_nat_lem :
    (target place : ℕ)
    → target < 2 ^ 64
    → (place + pattern 64 (relative target place)) % 2 ^ 64 ≡ target
sub_nat_lem target place h = elim (Bool-cases (ltb target (2 ^ 63))) [
  | inl low ↦ rw low elim (Bool-cases (leb place target)) [
    | inl after ↦ rw after (omega (arith, leb→le _ _ after))
    | inr before ↦ rw before (ground arith)
  ]
  | inr high ↦ rw high (ground arith)
]

distance_lem :
    (target place : ℕ)
    → target < 2 ^ 64
    → fits (2 ^ 31) (relative target place) ≡ true
    → (place + pattern 64 (signed (2 ^ 31) (pattern 32 (relative target place) % 2 ^ 32))) % 2 ^ 64
      ≡ target
distance_lem target place h k =
    ap (λ z. (place + pattern 64 z) % 2 ^ 64) (signed_word (relative target place) k)
    ∙ sub_nat_lem target place h

section-set_section : (c : Bool) (xs : List ℕ) (s : Asm) → section c (set_section c xs s) ≡ xs
section-set_section true xs s = refl
section-set_section false xs s = refl

syms-set_section : (c : Bool) (xs : List ℕ) (s : Asm) → (set_section c xs s).syms ≡ s.syms
syms-set_section true xs s = refl
syms-set_section false xs s = refl

-- A section that is not written stays.
section-other :
    (c d : Bool) (xs : List ℕ) (s : Asm) → (c ≡ d) ⊎ (section d (set_section c xs s) ≡ section d s)
section-other true true xs s = inl refl
section-other true false xs s = inr refl
section-other false true xs s = inr refl
section-other false false xs s = inl refl

-- The section, the symbols and the fixups after the bytes of a fixup are written.
abbrev patched : Fixup → List ℕ → Asm → Asm
patched f bs s = set_section f.in_text (put f.off bs (section f.in_text s)) s

field-patched :
    (f : Fixup) (bs : List ℕ) (s : Asm) (c : Bool) (i n : ℕ)
    → length bs ≡ width f
    → Clear c i n f
    → field i n (section c (patched f bs s)) ≡ field i n (section c s)
field-patched f bs s c i n h clear =
    elim (section-other f.in_text c (put f.off bs (section f.in_text s)) s) [
      | inl here ↦
          subst (λ d. field i n (section d (patched f bs s)) ≡ field i n (section d s)) here
            (ap (field i n) (section-set_section f.in_text _ s) ∙ elim (clear here) [
              | inl before ↦ field-before f.off bs (section f.in_text s) i n before
              | inr after ↦
                  ap (take n) (drop-put f.off bs (section f.in_text s) i (omega (arith, h, after)))
            ])
      | inr other ↦ ap (field i n) other
    ]

length-patched :
    (c d : Bool) (k : ℕ) (bs : List ℕ) (s : Asm)
    → length (section d (set_section c (put k bs (section c s)) s)) ≡ length (section d s)
length-patched true true k bs s = length-put k bs s.text
length-patched true false k bs s = refl
length-patched false true k bs s = refl
length-patched false false k bs s = length-put k bs s.data_bytes

set_section-Keeps :
    (f : Fixup) (bs : List ℕ) (s : Asm) → length bs ≡ width f → Keeps (f ∷ []) s (patched f bs s)
set_section-Keeps f bs s h = (
  syms-set_section f.in_text _ s,
  (λ c. length-patched f.in_text c f.off bs s),
  (λ c i n clear. field-patched f bs s c i n h clear.0),
)

-- The number that is written is the one that is there.
number_of-patched :
    (f : Fixup) (n v : ℕ) (s : Asm)
    → Fits s f
    → width f ≡ n
    → number_of (field f.off n (section f.in_text (patched f (bytes_of n v) s))) ≡ v % 256 ^ n
number_of-patched f n v s h w =
    let whole = length-bytes_of n v in
    let read : field f.off (length (bytes_of n v)) (put f.off (bytes_of n v) (section f.in_text s))
        ≡ bytes_of n v =
      field-put f.off (bytes_of n v) (section f.in_text s) (omega (arith, h, w, whole)) in
    ap (λ t. number_of (field f.off n t)) (section-set_section f.in_text _ s)
    ∙ ap (λ k. number_of (field f.off k (put f.off (bytes_of n v) (section f.in_text s))))
        (sym whole)
    ∙ ap number_of read
    ∙ number_of-bytes_of n v

resolve_to_lem :
    (l : Layout) (f : Fixup) (t : Sym) (s : Asm)
    → Fits s f
    → IsFar l f t × (resolve_to l f t s ≡ stop relocation_out_of_range)
      ⊎ (s' : Asm) × (resolve_to l f t s ≡ ok s') × Reaches l s' f t × Keeps (f ∷ []) s s'
unfolding resolve_to
resolve_to_lem l f t s h = elim (Bool-cases f.abs64) [
  | inl abs ↦ inr (
    patched f (bytes_of 8 (target_of l f t)) s,
    rw abs refl,
    rw abs (number_of-patched f 8 _ s h (ap (λ c. if c then 8 else 4) abs) ∙ omega arith),
    set_section-Keeps f _ s (length-bytes_of 8 _ ∙ sym (ap (λ c. if c then 8 else 4) abs)),
  )
  | inr rel ↦ elim (Bool-cases (fits (2 ^ 31) (relative (target_of l f t) (place_of l f)))) [
    | inl near ↦ inr (
      patched f (bytes_of 4 (pattern 32 (relative (target_of l f t) (place_of l f)))) s,
      rw (rel, near) refl,
      rw rel (
          ap (λ v. (place_of l f + pattern 64 (signed (2 ^ 31) v)) % 2 ^ 64)
            (number_of-patched f 4 _ s h (ap (λ c. if c then 8 else 4) rel))
          ∙ distance_lem _ _ (omega arith) near),
      set_section-Keeps f _ s (length-bytes_of 4 _ ∙ sym (ap (λ c. if c then 8 else 4) rel)),
    )
    | inr wide ↦ inl ((rel, wide), rw (rel, wide) refl)
  ]
]

-- What the loop promises for a fixup.
abbrev pub Done : Layout → List (Name × Sym) → Asm → Fixup → Type 0
Done l syms s' f = (t : Sym) × (lookup f.name syms ≡ some t) × Reaches l s' f t

abbrev pub IsUndefined : List (Name × Sym) → Fixup → Type 0
IsUndefined syms f = lookup f.name syms ≡ none

-- The fixup has NULL for a name.
abbrev pub IsNull : Fixup → Type 0
IsNull f = same null_name f.name ≡ true

-- A fixup with a symbol that is too far.
abbrev pub IsOut : Layout → List (Name × Sym) → Fixup → Type 0
IsOut l syms f = (t : Sym) × (lookup f.name syms ≡ some t) × IsFar l f t

abbrev pub Outcome : Layout → List Fixup → Asm → Type 0
Outcome l fs s =
    Any IsNull fs × (resolve l fs s ≡ stop null_symbol)
    ⊎ Any (IsUndefined s.syms) fs × (resolve l fs s ≡ stop undefined_symbol)
    ⊎ Any (IsOut l s.syms) fs × (resolve l fs s ≡ stop relocation_out_of_range)
    ⊎ ((s' : Asm) × (resolve l fs s ≡ ok s') × All (Done l s.syms s') fs × Keeps fs s s')

-- What a later turn keeps, an earlier one has done.
Reaches-Keeps :
    (l : Layout) (f : Fixup) (t : Sym) (fs : List Fixup) (s s' : Asm)
    → All (Precedes f) fs
    → Keeps fs s s'
    → Reaches l s f t
    → Reaches l s' f t
Reaches-Keeps l f t fs s s' before keeps h =
    let clear : All (Clear f.in_text f.off (width f)) fs =
      All-map (Precedes f) (Clear f.in_text f.off (width f)) (λ g p e. inl (p (sym e))) fs before in
    let kept = keeps.2 f.in_text f.off (width f) clear in
    elim (Bool-cases f.abs64) [
      | inl abs ↦
          let read = subst (λ c. led l s f c ≡ target_of l f t) abs h in
          let bytes =
            subst
              (λ c.
                field f.off (if c then 8 else 4) (section f.in_text s')
                ≡ field f.off (if c then 8 else 4) (section f.in_text s))
              abs kept in
          rw abs (ap number_of bytes ∙ read)
      | inr rel ↦
          let read = subst (λ c. led l s f c ≡ target_of l f t) rel h in
          let bytes =
            subst
              (λ c.
                field f.off (if c then 8 else 4) (section f.in_text s')
                ≡ field f.off (if c then 8 else 4) (section f.in_text s))
              rel kept in
          rw rel (
            ap (λ xs. (place_of l f + pattern 64 (signed (2 ^ 31) (number_of xs))) % 2 ^ 64) bytes
            ∙ read)
    ]

resolve-step :
    (l : Layout) (f : Fixup) (fs : List Fixup) (t : Sym) (s s1 : Asm)
    → All (Precedes f) fs
    → same null_name f.name ≡ false
    → lookup f.name s.syms ≡ some t
    → resolve_to l f t s ≡ ok s1
    → Reaches l s1 f t
    → Keeps (f ∷ []) s s1
    → Outcome l fs s1
    → Outcome l (f ∷ fs) s
unfolding resolve
resolve-step l f fs t s s1 before named found step reaches keeps rest = elim rest [
  | inl (any, e) ↦ inl (inr any, rw (named, found, step, e) refl)
  | inr (inl (any, e)) ↦
      inr (
        inl
          (inr (subst (λ y. Any (IsUndefined y) fs) keeps.0 any), rw (named, found, step, e) refl))
  | inr (inr (inl (any, e))) ↦ inr (
      inr
        (inl (inr (subst (λ y. Any (IsOut l y) fs) keeps.0 any), rw (named, found, step, e) refl)))
  | inr (inr (inr (s', e, all, later))) ↦ inr (
      inr (
        inr (
          s',
          rw (named, found, step, e) refl,
          (
            (t, found, Reaches-Keeps l f t fs s1 s' before later reaches),
            subst (λ y. All (Done l y s') fs) keeps.0 all,
          ),
          (
            later.0 ∙ keeps.0,
            (λ c. later.1 c ∙ keeps.1 c),
            (λ c i n k. later.2 c i n k.1 ∙ keeps.2 c i n (k.0, tt)),
          ),
        )))
]

pub resolve_lem :
    (l : Layout) (fs : List Fixup) (s : Asm) → All (Fits s) fs → Separate fs → Outcome l fs s
unfolding resolve
resolve_lem l [] s h sep = inr (inr (inr (s, refl, tt, (refl, (λ c. refl), (λ c i n k. refl)))))
resolve_lem l (f ∷ fs) s h sep = elim (Bool-cases (same null_name f.name)) [
  | inl null ↦ inl (inl null, rw null refl)
  | inr named ↦ elim (Option-cases (lookup f.name s.syms)) [
    | inl absent ↦ inr (inl (inl absent, rw (named, absent) refl))
    | inr (t, found) ↦ elim (resolve_to_lem l f t s h.0) [
      | inl (wide, fails) ↦ inr (inr (inl (inl (t, found, wide), rw (named, found, fails) refl)))
      | inr (s1, step, reaches, keeps) ↦
          resolve-step l f fs t s s1 sep.0 named found step reaches keeps (
            resolve_lem l fs s1
              (All-map (Fits s) (Fits s1)
                (λ g fit. subst (λ k. g.off + width g ≤ k) (sym (keeps.1 g.in_text)) fit) fs h.1)
              sep.1)
    ]
  ]
]
