-- ===== src/Cache/RoundTrip.antt =====
-- block.c: a read behind a write.
use group.Base.{
  ℕ, suc, ◌+◌, ◌≤◌, ◌<◌, ◌≡◌, refl, ap, ap₂, subst, ◌∙◌, true, ◌&&◌, List, [], ◌∷◌, arith, leb, ltb,
  get_or, length,
}
use group.Cache.{
  Bytes, Cache, done, Returns, Returns-mono, sector_size, slice, splice, read_buffered,
  write_buffered,
}
use group.Cache.Inv.{Inv, view}
use group.Cache.Acquire.{IsReady}
use group.Cache.Read.{Reads, read_buffered-Reads}
use group.Cache.Write.{Writes, write_buffered-Writes}

slice_of_get_or :
    (f : Bytes) (at : ℕ) (xs : List ℕ)
    → ((k : ℕ) → k < length xs → f (at + k) ≡ get_or xs k 0)
    → slice f at (length xs) ≡ xs
unfolding slice
slice_of_get_or f at [] h = refl
slice_of_get_or f at (x ∷ xs) h =
    ap₂ ◌∷◌ (ap f (omega arith) ∙ h 0 (omega arith))
      (slice_of_get_or f (at + 1) xs λ k p. ap f (omega arith) ∙ h (suc k) (omega arith))

-- The bytes written into a buffer stand where they were written.
pub slice-splice :
    (b : Bytes) (start : ℕ) (bytes : List ℕ)
    → slice (splice b start bytes) start (length bytes) ≡ bytes
unfolding splice
slice-splice b start bytes = slice_of_get_or (splice b start bytes) start bytes λ k p.
    rw
      (let e : (leb start (start + k) && ltb (start + k) (start + length bytes)) ≡ true =
          ground arith in
        e)
      (ap (λ i. get_or bytes i 0) (omega arith))

-- A read of the bytes just written returns them, whatever the write had to evict, under the
-- conditions of the two operations.
pub read-write :
    (n : ℕ) (c d : Cache) (sector start : ℕ) (bytes : List ℕ)
    → Inv n c
    → 0 < c.active
    → 0 < n
    → sector < c.size
    → start + length bytes ≤ sector_size
    → IsReady c sector
    → write_buffered sector start bytes c ≡ done tt d
    → IsReady d sector
    → Returns (read_buffered sector start (start + length bytes) d) (λ out e. out ≡ bytes)
unfolding Reads Writes
read-write n c d sector start bytes v awake some_active inside fits ready wrote ready' =
    Returns-mono _ _ (read_buffered sector start (start + length bytes) d)
      (read_buffered-Reads n d w.sound sector start (start + length bytes)
        (omega (arith, w.same_active)) some_active (omega (arith, w.same_size)) (omega arith, fits)
        ready')
      λ out e (same, _).
        same
        ∙ ap₂ (λ b k. slice b start k) w.here (omega arith)
        ∙ slice-splice (view c sector) start bytes
  where
    w : Writes n c sector start bytes tt d
    w =
        subst (λ r. Returns r (Writes n c sector start bytes)) wrote
          (write_buffered-Writes n c v sector start bytes awake some_active inside fits ready)
