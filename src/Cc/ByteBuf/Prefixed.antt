-- ===== src/Cc/ByteBuf/Prefixed.antt =====
-- What `buf_name` and `buf_section` of cc/codegen.c append.
use sandbox_stack.Prelude.{ℕ, zero, suc, ◌/◌, ◌^◌, ◌<◌, ◌≡◌, inl, inr, refl, ap, sym, ◌∙◌, arith}
use sandbox_stack.Prelude.{List, [], ◌∷◌, ◌++◌, some, length, take, All, ◌==◌, Bool-cases}
use sandbox_stack.Groups.{unsigned_groups}
use sandbox_stack.Cc.ByteBuf.{Buf, buf_u8, buf_bytes, buf_uleb, buf_name, buf_section, rounds}
use sandbox_stack.Cc.ByteBuf.Encode.{Appends, uleb_groups, bytes-buf_u8}
use mathlib.Core.List.{append_assoc, append-nil}

abbrev pub IsByte : ℕ → Type 0
IsByte x = x < 256

-- A round more than enough changes nothing.
one_more :
    (fuel : ℕ) (b b' : Buf) (v : ℕ)
    → buf_uleb fuel b v ≡ some b'
    → buf_uleb (suc fuel) b v ≡ some b'
unfolding buf_uleb
one_more zero b b' v e = absurd (cc)
one_more (suc fuel) b b' v e = elim (Bool-cases (v / 128 == 0)) [
  | inl last ↦ rw last (rw last at e)
  | inr more ↦ rw more (one_more fuel _ b' (v / 128) (rw more at e))
]

pub ten_rounds : (b b' : Buf) (v : ℕ) → buf_uleb 5 b v ≡ some b' → buf_uleb 10 b v ≡ some b'
ten_rounds b b' v e =
    one_more 9 b b' v
      (one_more 8 b b' v (one_more 7 b b' v (one_more 6 b b' v (one_more 5 b b' v e))))

pub bytes-buf_bytes :
    (b : Buf) (xs : List ℕ) → All IsByte xs → (buf_bytes b xs).bytes ≡ b.bytes ++ xs
unfolding buf_bytes
bytes-buf_bytes b [] h = sym (append-nil b.bytes)
bytes-buf_bytes b (x ∷ xs) h =
    bytes-buf_bytes (buf_u8 b x) xs h.1
    ∙ ap (λ t. t ++ xs) (bytes-buf_u8 b x h.0)
    ∙ append_assoc b.bytes (x ∷ []) xs

take_all : (xs : List ℕ) → take (length xs) xs ≡ xs
take_all [] = refl
take_all (x ∷ xs) = ap (λ t. x ∷ t) (take_all xs)

-- Below 2^31 every byte has its round.
whole_lem : (xs : List ℕ) → length xs < 2 ^ 31 → take (rounds (length xs)) xs ≡ xs
whole_lem xs short =
    let all : rounds (length xs) ≡ length xs = ground arith in ap (λ n. take n xs) all ∙ take_all xs

-- A length below 2^31 and the bytes that it counts.
pub Appends-buf_name :
    (b : Buf) (s : List ℕ)
    → length s < 2 ^ 31
    → All IsByte s
    → Appends b (unsigned_groups 4 (length s) ++ s) (buf_name b s)
unfolding buf_name
Appends-buf_name b s short bytes =
    let (b', wrote, grown) = uleb_groups 4 b (length s) (omega arith) in
    (
      buf_bytes b' s,
      rw (ten_rounds b b' (length s) wrote, whole_lem s short) refl,
      bytes-buf_bytes b' s bytes
          ∙ ap (λ t. t ++ s) grown
          ∙ append_assoc b.bytes (unsigned_groups 4 (length s)) s,
    )

pub Appends-buf_section :
    (out : Buf) (id : ℕ) (content : Buf)
    → IsByte id
    → length content.bytes < 2 ^ 31
    → All IsByte content.bytes
    → Appends out
        (id ∷ unsigned_groups 4 (length content.bytes) ++ content.bytes)
        (buf_section out id content)
unfolding buf_section
Appends-buf_section out id content small short bytes =
    let (b', wrote, grown) = uleb_groups 4 (buf_u8 out id) (length content.bytes) (omega arith) in
    (
      buf_bytes b' content.bytes,
      rw (ten_rounds (buf_u8 out id) b' (length content.bytes) wrote, whole_lem content.bytes short)
          refl,
      bytes-buf_bytes b' content.bytes bytes
          ∙ ap (λ t. t ++ content.bytes)
              (grown
                ∙ ap (λ t. t ++ unsigned_groups 4 (length content.bytes))
                    (bytes-buf_u8 out id small))
          ∙ append_assoc (out.bytes ++ (id ∷ [])) (unsigned_groups 4 (length content.bytes))
              content.bytes
          ∙ append_assoc out.bytes (id ∷ [])
              (unsigned_groups 4 (length content.bytes) ++ content.bytes),
    )
