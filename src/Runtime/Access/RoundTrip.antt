-- ===== src/Runtime/Access/RoundTrip.antt =====
-- What a load reads after a store.
use sandbox_stack.Prelude.{ℕ, ◌+◌, ◌*◌, ◌%◌, ◌^◌, ◌≤◌, ◌<◌, ◌≡◌, sym, ap, ◌∙◌, ◌⊎◌, arith}
use sandbox_stack.Prelude.{if◌then◌else◌, leb, length, List, Bool, true, false, ◌&&◌, inl, inr}
use native.Mathlib.Nat.{mod-lt, mod-eq_of_lt, one-le-pow}
use sandbox_stack.Bytes.{memcpy_in, memcpy_out, bytes_of, number_of}
use sandbox_stack.Bytes.Laws.{memcpy_in-at, memcpy_out_ext, memcpy_out-memcpy_in}
use sandbox_stack.Bytes.Laws.{pow_256, length-bytes_of, number_of-bytes_of}
use sandbox_stack.Runtime.{done}
use sandbox_stack.Runtime.Memory.{
  Memory, Arena, u32_mod, CType, bits, convert, check, access, define_load, define_store,
}
use sandbox_stack.Runtime.Memory.Laws.{IsValid, IsValid-cell, define_load_lem, define_store_lem}

if-lt : (c : Bool) {x y n : ℕ} → x < n → y < n → (if c then x else y) < n
if-lt true h k = h
if-lt false h k = k

convert-lt : (from to : CType) (x : ℕ) → convert from to x < 2 ^ bits to
unfolding convert
convert-lt from to x =
    let pos : 0 < 2 ^ bits to = one-le-pow (bits to) 2 (omega arith) in
    if-lt (from.signed && leb (2 ^ bits from) (2 * x)) (mod-lt _ pos) (mod-lt _ pos)

done-injective {ℓ} : {A : Type ℓ} {x y : A} → done x ≡ done y → x ≡ y
done-injective e = cc

abbrev stored : CType → CType → Arena → ℕ → ℕ → Arena
stored s1 s2 a addr v = record a {
  cell = memcpy_in addr (bytes_of s1.bytes (convert s2 s1 v)) a.cell;
}

-- The bytes that a store writes give back the converted value.
number_of_stored :
    (t1 t2 : CType) (v : ℕ) → number_of (bytes_of t1.bytes (convert t2 t1 v)) ≡ convert t2 t1 v
number_of_stored t1 t2 v =
    number_of-bytes_of t1.bytes (convert t2 t1 v)
    ∙ ap (λ p. convert t2 t1 v % p) (pow_256 t1.bytes)
    ∙ mod-eq_of_lt (convert-lt t2 t1 v)

read_back :
    (s1 s2 : CType) (a : Arena) (addr v n : ℕ)
    → n ≡ s1.bytes
    → number_of (memcpy_out addr n (stored s1 s2 a addr v).cell) ≡ convert s2 s1 v
read_back s1 s2 a addr v n same =
    let bs = bytes_of s1.bytes (convert s2 s1 v) in
    let width : n ≡ length bs = omega (arith, length-bytes_of s1.bytes (convert s2 s1 v)) in
    ap number_of (
      ap (λ k. memcpy_out addr k (memcpy_in addr bs a.cell)) width
      ∙ memcpy_out-memcpy_in bs addr a.cell)
    ∙ number_of_stored s1 s2 v

-- On a valid memory, a store of at most 8 bytes at a 32-bit address whose bytes are inside is done,
-- and a load of the same width at that address then gives the stored value, converted as the two
-- types of the store and of the load say.
pub load-store :
    (s1 s2 l1 l2 l3 : CType) (m : Memory) (a : Arena) (addr v : ℕ)
    → IsValid m a
    → addr < u32_mod
    → s1.bytes ≤ 8
    → l1.bytes ≡ s1.bytes
    → addr + s1.bytes ≤ m.size
    → (a' : Arena) × (define_store s1 s2 m a addr v ≡ done a')
      × (define_load l1 l2 l3 m a' addr ≡ done (convert l2 l3 (convert l1 l2 (convert s2 s1 v))))
load-store s1 s2 l1 l2 l3 m a addr v vm h small same fits =
    elim (define_store_lem s1 s2 m a addr v vm h small) [
      | inr (out, e) ↦ absurd (omega arith)
      | inl (_, e) ↦ (stored s1 s2 a addr v, e, loaded)
    ]
  where
    loaded :
        define_load l1 l2 l3 m (stored s1 s2 a addr v) addr
        ≡ done (convert l2 l3 (convert l1 l2 (convert s2 s1 v)))
    loaded =
        elim (define_load_lem l1 l2 l3 m (stored s1 s2 a addr v) addr
          (IsValid-cell (stored s1 s2 a addr v).cell vm) h (omega arith)) [
            | inr (out, e) ↦ absurd (omega arith)
            | inl (_, e) ↦
                e
                ∙ ap (λ r. done (convert l2 l3 (convert l1 l2 r)))
                    (read_back s1 s2 a addr v l1.bytes same)
          ]

-- On a valid memory, a store of at most 8 bytes that is done does not change what a load of at most
-- 8 other bytes gives, nor whether that load traps, for 32-bit addresses.
pub load-store_disjoint :
    (s1 s2 l1 l2 l3 : CType) (m : Memory) (a a' : Arena) (addr b v : ℕ)
    → IsValid m a
    → addr < u32_mod
    → b < u32_mod
    → s1.bytes ≤ 8
    → l1.bytes ≤ 8
    → (addr + s1.bytes ≤ b) ⊎ (b + l1.bytes ≤ addr)
    → define_store s1 s2 m a addr v ≡ done a'
    → define_load l1 l2 l3 m a' b ≡ define_load l1 l2 l3 m a b
load-store_disjoint s1 s2 l1 l2 l3 m a a' addr b v vm h hb ss sl apart run =
    elim (define_store_lem s1 s2 m a addr v vm h ss) [
      | inr (_, e) ↦ absurd (cc)
      | inl (_, e) ↦ rw (done-injective (sym run ∙ e)) other_bytes
    ]
  where
    bs : List ℕ
    bs = bytes_of s1.bytes (convert s2 s1 v)

    untouched : (j : ℕ) → b ≤ j → j < b + l1.bytes → memcpy_in addr bs a.cell j ≡ a.cell j
    untouched j p q =
        ground (arith, memcpy_in-at bs addr j a.cell, length-bytes_of s1.bytes (convert s2 s1 v))

    other_bytes : define_load l1 l2 l3 m (stored s1 s2 a addr v) b ≡ define_load l1 l2 l3 m a b
    other_bytes =
        unfold define_load check access in rw (memcpy_out_ext l1.bytes b _ a.cell untouched)
