-- ===== src/Host/Check.antt =====
-- src/VM.cpp `main`, SELECT == 2 and REF != 0: the product computed once more by the host, and the
-- comparison. A `cl_int` stands as its 32 bits, so that `diff==0` says that the bits are the same.
pub mod Laws
pub mod Compare
pub mod Product
use ocl_gprm.Base.{
  ℕ, zero, suc, ◌+◌, ◌*◌, ◌%◌, ◌^◌, ◌-◌, ◌&&◌, ◌==◌, not, ltb, if◌then◌else◌, u32, Memory, store,
}

module _ (width : ℕ) (data_p : Memory ℕ) where
  -- `mArow[j]=data[A0+i*mWidth+j]`, with `left` rounds to go
  unfoldable pub cache_row : ℕ → ℕ → ℕ → ℕ → Memory ℕ → Memory ℕ
  cache_row zero a0 i j m_arow = m_arow
  cache_row (suc left) a0 i j m_arow =
      cache_row left a0 i (j + 1) (store m_arow j (data_p (u32 (a0 + i * width + j))))

  -- `elt+=mArow[k]*data[B0+k*mWidth+j]`
  unfoldable pub ref_element : ℕ → ℕ → Memory ℕ → ℕ → ℕ → ℕ → ℕ
  ref_element zero b0 m_arow j k elt = elt
  ref_element (suc left) b0 m_arow j k elt =
      ref_element left b0 m_arow j (k + 1)
        (u32 (elt + m_arow k * data_p (u32 (b0 + k * width + j))))

  -- `mCref[i*mWidth+j]=elt`
  unfoldable pub ref_row : ℕ → ℕ → Memory ℕ → ℕ → ℕ → Memory ℕ → Memory ℕ
  ref_row zero b0 m_arow i j m_cref = m_cref
  ref_row (suc left) b0 m_arow i j m_cref =
      ref_row left b0 m_arow i (j + 1)
        (store m_cref (u32 (i * width + j)) (ref_element width b0 m_arow j 0 0))

  -- The rows, the cache and the product passed on from each to the next.
  unfoldable pub ref_rows : ℕ → ℕ → ℕ → ℕ → Memory ℕ → Memory ℕ → Memory ℕ
  ref_rows zero a0 b0 i m_arow m_cref = m_cref
  ref_rows (suc left) a0 b0 i m_arow m_cref =
      let m_arow' = cache_row width a0 i 0 m_arow in
      ref_rows left a0 b0 (i + 1) m_arow' (ref_row width b0 m_arow' i 0 m_cref)

  -- The reference product, with `fresh_row` and `fresh_ref` for what the arrays hold at first.
  unfoldable pub reference_product : Memory ℕ → Memory ℕ → Memory ℕ
  reference_product fresh_row fresh_ref = ref_rows width (data_p 1) (data_p 2) 0 fresh_row fresh_ref

-- The comparison from element `i` on, with `left` rounds to go: the counts of right and of wrong
-- elements.
unfoldable pub compare_from : ℕ → ℕ → ℕ → ℕ → ℕ → Memory ℕ → Memory ℕ → ℕ × ℕ
compare_from max_nerrors zero i correct nerrors result m_cref = (correct, nerrors)
compare_from max_nerrors (suc left) i correct nerrors result m_cref =
    let same = result i == m_cref i in
    let correct' = if same then correct + 1 else correct in
    let nerrors' = if same then nerrors else nerrors + 1 in
    let rest = compare_from max_nerrors left (i + 1) correct' nerrors' result m_cref in
    if not same && ltb max_nerrors nerrors' then (correct', nerrors') else rest

-- `result i` is `mC[i]`, or `data[C0+i]` without USE_SUBBUFFER.
unfoldable pub compare : ℕ → Memory ℕ → Memory ℕ → ℕ × ℕ
compare width result m_cref =
    let m_size = width * width in compare_from m_size m_size 0 0 0 result m_cref

-- The whole check: `data_p` is the host's copy of the data buffer.
unfoldable pub check : ℕ → Memory ℕ → Memory ℕ → Memory ℕ → Memory ℕ → ℕ × ℕ
check width data_p result fresh_row fresh_ref =
    compare width result (reference_product width data_p fresh_row fresh_ref)
