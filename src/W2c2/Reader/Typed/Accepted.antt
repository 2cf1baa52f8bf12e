-- ===== src/W2c2/Reader/Typed/Accepted.antt =====
-- The type indices of the functions of a module across the table of section readers of w2c2/reader.c.
use sandbox_stack.Prelude.{ℕ, zero, suc, ◌-◌, ◌≡◌, ◌≢◌, refl, subst, arith}
use sandbox_stack.Prelude.{
  Bool, true, false, List, [], ◌∷◌, Option, none, some, length, get_elem?, All,
}
use sandbox_stack.Prelude.{◌==◌, if◌then◌else◌}
use sandbox_stack.W2c2.Buffer.{Buffer, read_byte}
use sandbox_stack.W2c2.Reader.Parse.{Result, ok, err, fault}
use sandbox_stack.W2c2.Reader.Parse.{Allocator, leb_u32, or_report}
use sandbox_stack.W2c2.Reader.Parse.{function_types}
use sandbox_stack.W2c2.Reader.Parse.{incorrect_section_read, invalid_section_size}
use sandbox_stack.W2c2.Reader.Module.{Module, Function}
use sandbox_stack.W2c2.Reader.Ensure.{Gives, Ensures, any-Ensures, done-Ensures}
use sandbox_stack.W2c2.Reader.Sections
use sandbox_stack.W2c2.Reader.Sections.{
  remaining, skipped, read_sized_code, named, sub32, take_unchecked,
}
use sandbox_stack.W2c2.Reader.File.{
  SectionReader, check_end, read_contents, section_readers, read_section,
}
use sandbox_stack.W2c2.Reader.Typed.{
  read_custom_section-IsTyped, read_import_section-IsTyped, read_function_section-IsTyped,
}
use sandbox_stack.W2c2.Reader.Typed.{
  read_table_section-IsTyped, read_memory_section-IsTyped, read_global_section-IsTyped,
}
use sandbox_stack.W2c2.Reader.Typed.{
  read_export_section-IsTyped, read_start_section-IsTyped, read_element_section-IsTyped,
}
use sandbox_stack.W2c2.Reader.Typed.{
  read_code_section-IsTyped, read_data_section-IsTyped, read_data_count_section-IsTyped,
}
use sandbox_stack.W2c2.Reader.Typed.{IsTypedBy, IsTyped}

module _ (alloc : Allocator) where
  -- What a reader of the table does to a typed module.
  abbrev Keeps : Option SectionReader → Type 0
  Keeps none = Unit
  Keeps (some r) = (size : ℕ) (m : Module) → IsTyped m → Ensures IsTyped (r size m)

  readers-Keeps : (id : ℕ) → id ≢ 1 → Keeps (get_elem? (section_readers alloc) id)
  readers-Keeps zero other = read_custom_section-IsTyped alloc
  readers-Keeps (suc zero) other = λ size m h. absurd (other refl)
  readers-Keeps (suc (suc zero)) other = read_import_section-IsTyped alloc
  readers-Keeps (suc (suc (suc zero))) other =
      λ size m h. read_function_section-IsTyped alloc size m
  readers-Keeps (suc (suc (suc (suc zero)))) other = read_table_section-IsTyped alloc
  readers-Keeps (suc (suc (suc (suc (suc zero))))) other = read_memory_section-IsTyped alloc
  readers-Keeps (suc (suc (suc (suc (suc (suc zero)))))) other = read_global_section-IsTyped alloc
  readers-Keeps (suc (suc (suc (suc (suc (suc (suc zero))))))) other =
      read_export_section-IsTyped alloc
  readers-Keeps (suc (suc (suc (suc (suc (suc (suc (suc zero)))))))) other =
      read_start_section-IsTyped alloc
  readers-Keeps (suc (suc (suc (suc (suc (suc (suc (suc (suc zero))))))))) other =
      read_element_section-IsTyped alloc
  readers-Keeps (suc (suc (suc (suc (suc (suc (suc (suc (suc (suc zero)))))))))) other =
      read_code_section-IsTyped alloc
  readers-Keeps (suc (suc (suc (suc (suc (suc (suc (suc (suc (suc (suc zero))))))))))) other =
      read_data_section-IsTyped alloc
  readers-Keeps (suc (suc (suc (suc (suc (suc (suc (suc (suc (suc (suc (suc zero)))))))))))) other =
      read_data_count_section-IsTyped alloc
  readers-Keeps (suc (suc (suc (suc (suc (suc (suc (suc (suc (suc (suc (suc (suc n)))))))))))))
        other =
      tt

  check_end-Gives :
      (before size : ℕ) (r : Result Module)
      → Gives IsTyped r
      → Gives IsTyped (check_end before size r)
  check_end-Gives before size (ok m b) h = if-Gives (before - length b == size)
    where
      if-Gives : (x : Bool) → Gives IsTyped (if x then ok m b else err incorrect_section_read)
      if-Gives true = h
      if-Gives false = tt
  check_end-Gives before size (err e) h = tt
  check_end-Gives before size fault h = tt

  read_contents-IsTyped :
      (o : Option SectionReader) (size : ℕ) (m : Module)
      → Keeps o
      → IsTyped m
      → Ensures IsTyped (read_contents o size m)
  read_contents-IsTyped none size m k h = any-Ensures (skipped size) (λ _. done-Ensures m h)
  read_contents-IsTyped (some r) size m k h = record {
    gives = λ b. check_end-Gives (length b) size (r size m b) ((k size m h).gives b);
  }

-- Reading a section that is not the type section keeps a module typed: every function of it has the
-- index of one of its types.
pub read_section-IsTyped :
    (alloc : Allocator) (m m' : Module) (id : ℕ) (b c : Buffer)
    → id ≢ 1
    → IsTyped m
    → read_section alloc m (id ∷ b) ≡ ok m' c
    → IsTyped m'
unfolding read_section read_byte
read_section-IsTyped alloc m m' id b c other h e = subst (Gives IsTyped) e (
    (any-Ensures (or_report leb_u32 invalid_section_size) (λ size.
        read_contents-IsTyped alloc (get_elem? (section_readers alloc) id) size m
          (readers-Keeps alloc id other) h)).gives
      b)

-- A type section is read whatever came before it: an empty one, behind a function section that
-- declared functions, leaves functions whose type index is the index of no type, if an array of no
-- types can be had.
pub type_section_untypes :
    (alloc : Allocator) (size : ℕ) (m : Module) (f : Function) (fs : List Function) (b : Buffer)
    → alloc function_types 0 ≡ true
    → m.functions ≡ f ∷ fs
    → (m' : Module) × (Sections.read_type_section alloc size m (0 ∷ b) ≡ ok m' b)
      × (m'.functions ≡ m.functions)
      × ¬ IsTyped m'
unfolding Sections.read_type_section leb_u32
type_section_untypes alloc size m f fs b got e = (
  record m { function_types = [] },
  rw got,
  refl,
  λ h. absurd (let bad : All (IsTypedBy 0) (f ∷ fs) = rw e at h.typed in omega (arith, bad.0)),
)
