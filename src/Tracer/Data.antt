-- ===== src/Tracer/Data.antt =====
-- multiversion/tracer.go: getData, where the end of the range wraps.
use go_pevm.Shared.{
  ℕ, ◌+◌, ◌-◌, ◌^◌, ◌<◌, ◌≤◌, ◌≡◌, refl, ◌⊎◌, inl, inr, some, arith, ltb, Bytes, int64_of_uint64,
  Bool-cases,
}
use go_pevm.External.Kaia.{Kaia}
use go_pevm.External.Evm.{Evm}
use go_pevm.Tracer.Callbacks.{byte_count, skip, take, get_data}

module _ ⦃k : Kaia⦄ ⦃e : Evm k⦄ where
  -- With a start inside the data and a range that does not wrap, getData pads the part of the range
  -- that lies in the data: its end is that of the range or that of the data, and lies after neither.
  pub get_data_in_range :
      (bytes : Bytes) (start size : ℕ)
      → start ≤ byte_count bytes
      → start + size < 2 ^ 64
      → (end : ℕ) × (get_data bytes start size
          ≡ some (e.right_pad_bytes (take (end - start) (skip start bytes)) (int64_of_uint64 size)))
        × (end ≤ start + size)
        × (end ≤ byte_count bytes)
        × ((end ≡ start + size) ⊎ (end ≡ byte_count bytes))
  unfolding get_data
  get_data_in_range bytes start size h w =
      elim (Bool-cases (ltb (byte_count bytes) (start + size))) [
        | inl p ↦ (byte_count bytes, ground arith, ground (arith, p), omega arith, inr refl)
        | inr p ↦ (start + size, ground arith, omega arith, ground (arith, p), inl refl)
      ]
