-- ===== src/Wire/Decoder/Fields.antt =====
-- Slices of a frame, and the length fields of an encoded frame, which are read back with any bytes
-- behind the frame.
use pod_os_go_client.Prelude.{
  ℕ, ◌+◌, ◌≡◌, ◌∙◌, ◌++◌, arith, Bytes, length, slice, slice_skip, slice_first,
}

-- Seven parts of nine bytes.
pub record Fields : Type 0 where
  pub a : Bytes
  pub b : Bytes
  pub c : Bytes
  pub d : Bytes
  pub e : Bytes
  pub f : Bytes
  pub g : Bytes
  pub rest : Bytes

pub record AllNine (s : Fields) : Type 0 where
  pub nine_a : length s.a ≡ 9
  pub nine_b : length s.b ≡ 9
  pub nine_c : length s.c ≡ 9
  pub nine_d : length s.d ≡ 9
  pub nine_e : length s.e ≡ 9
  pub nine_f : length s.f ≡ 9
  pub nine_g : length s.g ≡ 9

abbrev pub joined : Fields → Bytes
joined s = s.a ++ (s.b ++ (s.c ++ (s.d ++ (s.e ++ (s.f ++ (s.g ++ s.rest))))))

module _ (s : Fields) (n : AllNine s) where
  pub slice_a : slice 0 9 (joined s) ≡ s.a
  slice_a = slice_first 9 s.a _ n.nine_a

  pub slice_b : slice 9 18 (joined s) ≡ s.b
  slice_b =
      slice_skip 9 9 18 0 9 s.a _ n.nine_a (omega arith) (omega arith)
      ∙ slice_first 9 s.b _ n.nine_b

  pub slice_c : slice 18 27 (joined s) ≡ s.c
  slice_c =
      slice_skip 9 18 27 9 18 s.a _ n.nine_a (omega arith) (omega arith)
      ∙ slice_skip 9 9 18 0 9 s.b _ n.nine_b (omega arith) (omega arith)
      ∙ slice_first 9 s.c _ n.nine_c

  pub slice_d : slice 27 36 (joined s) ≡ s.d
  slice_d =
      slice_skip 9 27 36 18 27 s.a _ n.nine_a (omega arith) (omega arith)
      ∙ slice_skip 9 18 27 9 18 s.b _ n.nine_b (omega arith) (omega arith)
      ∙ slice_skip 9 9 18 0 9 s.c _ n.nine_c (omega arith) (omega arith)
      ∙ slice_first 9 s.d _ n.nine_d

  pub slice_e : slice 36 45 (joined s) ≡ s.e
  slice_e =
      slice_skip 9 36 45 27 36 s.a _ n.nine_a (omega arith) (omega arith)
      ∙ slice_skip 9 27 36 18 27 s.b _ n.nine_b (omega arith) (omega arith)
      ∙ slice_skip 9 18 27 9 18 s.c _ n.nine_c (omega arith) (omega arith)
      ∙ slice_skip 9 9 18 0 9 s.d _ n.nine_d (omega arith) (omega arith)
      ∙ slice_first 9 s.e _ n.nine_e

  pub slice_f : slice 45 54 (joined s) ≡ s.f
  slice_f =
      slice_skip 9 45 54 36 45 s.a _ n.nine_a (omega arith) (omega arith)
      ∙ slice_skip 9 36 45 27 36 s.b _ n.nine_b (omega arith) (omega arith)
      ∙ slice_skip 9 27 36 18 27 s.c _ n.nine_c (omega arith) (omega arith)
      ∙ slice_skip 9 18 27 9 18 s.d _ n.nine_d (omega arith) (omega arith)
      ∙ slice_skip 9 9 18 0 9 s.e _ n.nine_e (omega arith) (omega arith)
      ∙ slice_first 9 s.f _ n.nine_f

  pub slice_g : slice 54 63 (joined s) ≡ s.g
  slice_g =
      slice_skip 9 54 63 45 54 s.a _ n.nine_a (omega arith) (omega arith)
      ∙ slice_skip 9 45 54 36 45 s.b _ n.nine_b (omega arith) (omega arith)
      ∙ slice_skip 9 36 45 27 36 s.c _ n.nine_c (omega arith) (omega arith)
      ∙ slice_skip 9 27 36 18 27 s.d _ n.nine_d (omega arith) (omega arith)
      ∙ slice_skip 9 18 27 9 18 s.e _ n.nine_e (omega arith) (omega arith)
      ∙ slice_skip 9 9 18 0 9 s.f _ n.nine_f (omega arith) (omega arith)
      ∙ slice_first 9 s.g _ n.nine_g

  -- The slices behind the fields.
  pub slice_rest : (lo hi : ℕ) → slice (63 + lo) (63 + hi) (joined s) ≡ slice lo hi s.rest
  slice_rest lo hi =
      slice_skip 9 (63 + lo) (63 + hi) (54 + lo) (54 + hi) s.a _ n.nine_a (omega arith)
        (omega arith)
      ∙ slice_skip 9 (54 + lo) (54 + hi) (45 + lo) (45 + hi) s.b _ n.nine_b (omega arith)
          (omega arith)
      ∙ slice_skip 9 (45 + lo) (45 + hi) (36 + lo) (36 + hi) s.c _ n.nine_c (omega arith)
          (omega arith)
      ∙ slice_skip 9 (36 + lo) (36 + hi) (27 + lo) (27 + hi) s.d _ n.nine_d (omega arith)
          (omega arith)
      ∙ slice_skip 9 (27 + lo) (27 + hi) (18 + lo) (18 + hi) s.e _ n.nine_e (omega arith)
          (omega arith)
      ∙ slice_skip 9 (18 + lo) (18 + hi) (9 + lo) (9 + hi) s.f _ n.nine_f (omega arith)
          (omega arith)
      ∙ slice_skip 9 (9 + lo) (9 + hi) lo hi s.g _ n.nine_g (omega arith) (omega arith)
