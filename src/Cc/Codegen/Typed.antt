-- ===== src/Cc/Codegen/Typed.antt =====
-- Code that validates with given operands, and how such code is put together.
use sandbox_stack.Prelude.{
  ℕ, Bool, true, false, if◌then◌else◌, ◌≡◌, ◌∙◌, refl, ap, sym, subst, List, [], ◌∷◌, ◌++◌, Option,
  none, some, get_elem?,
}
use mathlib.Core.List.{append_assoc}
use sandbox_stack.Cc.Codegen.{
  Class, vc_none, vc_i32, vc_i64, vc_f32, vc_f64, same_class, valtype, Instr, if_, op, FuncSig, Gen,
  emit, error_if, ◌>>◌, with_code, before,
}
use sandbox_stack.Cc.Codegen.Expr.{branches}
use sandbox_stack.Cc.Codegen.Validate.{Stack, State, Frame, Context, check, result_of}

-- Code takes `ins` from the operands and leaves `outs`, whatever is below and whatever follows it.
abbrev pub Runs : Context → List FuncSig → List Instr → Stack → Stack → Type 0
Runs ctx ts c ins outs =
    (rest : List Instr) (st : Stack) (fs : List Frame)
    → check ctx ts (c ++ rest) (ins ++ st, fs) ≡ check ctx ts rest (outs ++ st, fs)

-- The entries of `ts` are where they are in `ts'` too.
abbrev pub Extends : List FuncSig → List FuncSig → Type 0
Extends ts ts' = (i : ℕ) (f : FuncSig) → get_elem? ts i ≡ some f → get_elem? ts' i ≡ some f

-- A state for any operands and open frames
abbrev pub Shape : Type 0
Shape = Stack → List Frame → State

-- Code leads from states of one shape to those of another, whatever follows it.
abbrev pub Leads : Context → List FuncSig → List Instr → Shape → Shape → Type 0
Leads ctx ts c from to =
    (rest : List Instr) (st : Stack) (fs : List Frame)
    → check ctx ts (c ++ rest) (from st fs) ≡ check ctx ts rest (to st fs)

-- Where code is generated, its entries extend the earlier ones, and it leads from one shape to the
-- other with them and with any entries behind them.
pub record Moves (ctx : Context) (g : Gen) (from to : Shape) : Type 0 where
  pub moved :
      (ts : List FuncSig) (c : List Instr) (ts' : List FuncSig)
      → g ts ≡ some (c, ts')
      → Extends ts ts' × ((all : List FuncSig) → Extends ts' all → Leads ctx all c from to)

-- The same between operands
pub record Types (ctx : Context) (g : Gen) (ins outs : Stack) : Type 0 where
  pub typed :
      (ts : List FuncSig) (c : List Instr) (ts' : List FuncSig)
      → g ts ≡ some (c, ts')
      → Extends ts ts' × ((all : List FuncSig) → Extends ts' all → Runs ctx all c ins outs)

abbrev pub Made : Type 0
Made = Option (List Instr × List FuncSig)

abbrev pub code_of : Made → List Instr
code_of none = []
code_of (some (c, ts)) = c

abbrev pub table_of : Made → List FuncSig
table_of none = []
table_of (some (c, ts)) = ts

Extends-trans : (a b c : List FuncSig) → Extends a b → Extends b c → Extends a c
Extends-trans a b c h k i f e = k i f (h i f e)

-- What a sequence is made of
abbrev SeqOf : Gen → Gen → List FuncSig → List Instr → List FuncSig → Type 0
SeqOf g h ts c ts' =
    (c1 : List Instr) × (ts1 : List FuncSig) × (c2 : List Instr) × (g ts ≡ some (c1, ts1))
    × (h ts1 ≡ some (c2, ts'))
    × (c ≡ c1 ++ c2)

seq_second :
    (c1 : List Instr) (r : Made) (c : List Instr) (ts' : List FuncSig)
    → before c1 r ≡ some (c, ts')
    → (c2 : List Instr) × (r ≡ some (c2, ts')) × (c ≡ c1 ++ c2)
seq_second c1 none c ts' e = absurd (cc e)
seq_second c1 (some (c2, ts2)) c ts' e =
    (c2, ap (λ t. some (c2, t)) (ap table_of e), sym (ap code_of e))

>>-SeqOf :
    (g h : Gen) (ts : List FuncSig) (c : List Instr) (ts' : List FuncSig)
    → (g >> h) ts ≡ some (c, ts')
    → SeqOf g h ts c ts'
unfolding ◌>>◌
>>-SeqOf g h ts c ts' e = go (g ts) refl e
  where
    go : (r : Made) → g ts ≡ r → with_code r h ≡ some (c, ts') → SeqOf g h ts c ts'
    go none first e' = absurd (cc e')
    go (some (c1, ts1)) first e' =
        let (c2, second, whole) = seq_second c1 (h ts1) c ts' e' in
        (c1, ts1, c2, first, second, whole)

-- Operands of these types, and below them any
abbrev on_top : Stack → Shape
on_top ins st fs = (ins ++ st, fs)

-- Inside a frame, over no operands
abbrev inside : (Stack → Frame) → Stack → Shape
inside frame outs st fs = (outs ++ [], frame st ∷ fs)

-- The frame of a branch with this result
abbrev in_branch : Class → Bool → Stack → Frame
in_branch c in_else st = record { outer = st; result = result_of c; in_else = in_else }

-- What the three bytes of an `if` do
module _ (ctx : Context) where
  opening :
      (c : Class) (all : List FuncSig)
      → Leads ctx all
          (if_ (if same_class c vc_none then 0x40 else valtype c) ∷ [])
          (on_top (vc_i32 ∷ []))
          (inside (in_branch c false) [])
  opening vc_none all rest st fs = refl
  opening vc_i32 all rest st fs = refl
  opening vc_i64 all rest st fs = refl
  opening vc_f32 all rest st fs = refl
  opening vc_f64 all rest st fs = refl

  turning :
      (c : Class) (all : List FuncSig)
      → Leads ctx all
          (op 5 ∷ [])
          (inside (in_branch c false) (result_of c))
          (inside (in_branch c true) [])
  turning vc_none all rest st fs = refl
  turning vc_i32 all rest st fs = refl
  turning vc_i64 all rest st fs = refl
  turning vc_f32 all rest st fs = refl
  turning vc_f64 all rest st fs = refl

  closing :
      (c : Class) (all : List FuncSig)
      → Leads ctx all
          (op 0x0b ∷ [])
          (inside (in_branch c true) (result_of c))
          (on_top (result_of c))
  closing vc_none all rest st fs = refl
  closing vc_i32 all rest st fs = refl
  closing vc_i64 all rest st fs = refl
  closing vc_f32 all rest st fs = refl
  closing vc_f64 all rest st fs = refl

module _ {ctx : Context} where
  -- Code that leads there with any entries, as it is written out
  emit-Moves :
      {c : List Instr} {from to : Shape}
      → ((all : List FuncSig) → Leads ctx all c from to)
      → Moves ctx (emit c) from to
  emit-Moves {c} {from} {to} h = record {
    moved = λ ts c' ts' e. (
      subst (Extends ts) (ap table_of e) (λ i f at. at),
      λ all more. subst (λ d. Leads ctx all d from to) (ap code_of e) (h all),
    );
  }

  >>-Moves :
      {g h : Gen} {from mid to : Shape}
      → Moves ctx g from mid
      → Moves ctx h mid to
      → Moves ctx (g >> h) from to
  >>-Moves {g} {h} {from} {mid} {to} tg th = record {
    moved = λ ts c ts' e.
        let (c1, ts1, c2, first, second, whole) = >>-SeqOf g h ts c ts' e in
        let (grow1, run1) = tg.moved ts c1 ts1 first in
        let (grow2, run2) = th.moved ts1 c2 ts' second in
        (
          Extends-trans ts ts1 ts' grow1 grow2,
          λ all more.
              subst (λ d. Leads ctx all d from to) (sym whole)
                (λ rest st fs.
                  ap (λ x. check ctx all x (from st fs)) (append_assoc c1 c2 rest)
                  ∙ run1 all (Extends-trans ts1 ts' all grow2 more) (c2 ++ rest) st fs
                  ∙ run2 all more rest st fs),
        );
  }

  Moves-Types :
      {g : Gen} {ins outs : Stack} → Moves ctx g (on_top ins) (on_top outs) → Types ctx g ins outs
  Moves-Types m = record { typed = m.moved }

  Types-Moves :
      {g : Gen} {ins outs : Stack} → Types ctx g ins outs → Moves ctx g (on_top ins) (on_top outs)
  Types-Moves t = record { moved = t.typed }

  pub emit-Types :
      {c : List Instr} {ins outs : Stack}
      → ((all : List FuncSig) → Runs ctx all c ins outs)
      → Types ctx (emit c) ins outs
  emit-Types h = Moves-Types (emit-Moves h)

  pub fail-Types : {ins outs : Stack} → Types ctx (λ ts. none) ins outs
  fail-Types = record { typed = λ ts c ts' e. absurd (cc e) }

  pub >>-Types :
      {g h : Gen} {ins mid outs : Stack}
      → Types ctx g ins mid
      → Types ctx h mid outs
      → Types ctx (g >> h) ins outs
  >>-Types tg th = Moves-Types (>>-Moves (Types-Moves tg) (Types-Moves th))

  -- Above other operands
  pub above :
      {g : Gen} {outs : Stack} (below : Stack)
      → Types ctx g [] outs
      → Types ctx g below (outs ++ below)
  above {g} {outs} below t = record {
    typed = λ ts c ts' e.
        let (grow, run) = t.typed ts c ts' e in
        (
          grow,
          λ all more rest st fs.
              run all more rest (below ++ st) fs
              ∙ ap (λ s. check ctx all rest (s, fs)) (sym (append_assoc outs below st)),
        );
  }

  pub over :
      {g : Gen} {ins outs : Stack} (below : Stack)
      → Types ctx g ins outs
      → Types ctx g (ins ++ below) (outs ++ below)
  over {g} {ins} {outs} below t = record {
    typed = λ ts c ts' e.
        let (grow, run) = t.typed ts c ts' e in
        (
          grow,
          λ all more rest st fs.
              ap (λ s. check ctx all (c ++ rest) (s, fs)) (append_assoc ins below st)
              ∙ run all more rest (below ++ st) fs
              ∙ ap (λ s. check ctx all rest (s, fs)) (sym (append_assoc outs below st)),
        );
  }

  pub if-Types :
      (b : Bool) {g h : Gen} {ins outs : Stack}
      → Types ctx g ins outs
      → Types ctx h ins outs
      → Types ctx (if b then g else h) ins outs
  if-Types true tg th = tg
  if-Types false tg th = th

  -- Each branch where its condition is known
  pub if_known-Types :
      (b : Bool) {g h : Gen} {ins outs : Stack}
      → (b ≡ true → Types ctx g ins outs)
      → (b ≡ false → Types ctx h ins outs)
      → Types ctx (if b then g else h) ins outs
  if_known-Types true tg th = tg refl
  if_known-Types false tg th = th refl

  pub error_if-Types :
      (b : Bool) {g : Gen} {ins outs : Stack}
      → Types ctx g ins outs
      → Types ctx (error_if b g) ins outs
  error_if-Types true t = fail-Types
  error_if-Types false t = t

  pub nothing : {s : Stack} → Types ctx (emit []) s s
  nothing = emit-Types (λ all rest st fs. refl)

  within :
      {g : Gen} {outs : Stack} (frame : Stack → Frame)
      → Types ctx g [] outs
      → Moves ctx g (inside frame []) (inside frame outs)
  within {g} {outs} frame t = record {
    moved = λ ts c ts' e.
        let (grow, run) = t.typed ts c ts' e in
        (grow, λ all more rest st fs. run all more rest [] (frame st ∷ fs));
  }

  -- The two branches of an `if`
  pub branches-Types :
      (vc : Class) {a b : Gen}
      → Types ctx a [] (result_of vc)
      → Types ctx b [] (result_of vc)
      → Types ctx (branches vc a b) (vc_i32 ∷ []) (result_of vc)
  branches-Types vc ta tb = Moves-Types (
      >>-Moves (emit-Moves (opening ctx vc)) (
        >>-Moves (within (in_branch vc false) ta) (
          >>-Moves (emit-Moves (turning ctx vc))
            (>>-Moves (within (in_branch vc true) tb) (emit-Moves (closing ctx vc))))))
