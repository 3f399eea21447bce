-- ===== src/Inode/Patch.antt =====
-- inode.c: bytes put into one block of a file.
use group.Base.{
  ℕ, ◌+◌, ◌-◌, ◌*◌, ◌/◌, ◌%◌, ◌≤◌, ◌<◌, ◌≡◌, ◌≢◌, refl, sym, ap, ◌∙◌, true, false, ◌&&◌, List, ◌==◌,
  leb, ltb, if◌then◌else◌, update, length, get_or, arith, Bool-cases, inl, inr, ==_ne, ==_self,
  ne_of_==, eq_of_==,
}
use group.Cache.{sector_size, slice, splice}
use group.Inode.{Store, of_bytes}
use group.Inode.Blocks.{word, single_of, double_of, indirect_of, block_of, IsSector, IsFile}
use group.Inode.Read.{byte_at}

abbrev pub patched : Store → ℕ → ℕ → List ℕ → Store
patched st sector o bytes = record st {
  bytes = update st.bytes sector (splice (st.bytes sector) o bytes);
}

module _ (st : Store) (ino len : ℕ) (f : IsFile st ino len) (b : ℕ)
    (in_file : b * sector_size < len) (o : ℕ) (bytes : List ℕ) where
  abbrev after : Store
  after = patched st (block_of st ino b) o bytes

  pub patched-elsewhere : (x : ℕ) → block_of st ino b ≢ x → after.bytes x ≡ st.bytes x
  patched-elsewhere x h = rw (==_ne x (block_of st ino b) (λ e. h (sym e))) refl

  word-elsewhere : (x at : ℕ) → block_of st ino b ≢ x → word after x at ≡ word st x at
  word-elsewhere x at h = ap (λ m. of_bytes (slice m at 4)) (patched-elsewhere x h)

  in_inode : (at : ℕ) → word after ino at ≡ word st ino at
  in_inode at = word-elsewhere ino at (f.not_inode b in_file)

  same_indirect : (k : ℕ) → 140 * sector_size < len → indirect_of after ino k ≡ indirect_of st ino k
  same_indirect k h =
      ap (λ s. word after s (k * 4)) (in_inode 60)
      ∙ word-elsewhere (double_of st ino) (k * 4) (f.not_double b in_file h)

  pub same_block : (i : ℕ) → i * sector_size < len → block_of after ino i ≡ block_of st ino i
  unfolding block_of
  same_block i h = elim (Bool-cases (ltb i 12)) [
    | inl e ↦ rw e (in_inode (8 + 4 * i))
    | inr e ↦ rw e (elim (Bool-cases (ltb i 140)) [
      | inl e₂ ↦ rw e₂ (
          ap (λ s. word after s ((i - 12) * 4)) (in_inode 56)
          ∙ word-elsewhere (single_of st ino) ((i - 12) * 4)
              (f.not_single b in_file (ground arith)))
      | inr e₂ ↦
          let big : 140 ≤ i = ground arith in
          rw e₂ (
            ap (λ s. word after s ((i - 140) % 128 * 4))
              (same_indirect ((i - 140) / 128) (omega arith))
            ∙ word-elsewhere (indirect_of st ino ((i - 140) / 128)) ((i - 140) % 128 * 4)
                (f.not_indirect b ((i - 140) / 128) in_file (omega arith)))
    ])
  ]

  moved : {x y : ℕ} → x ≡ y → IsSector st y → IsSector after x
  moved e s = record {
    nonzero = λ z. s.nonzero (sym e ∙ z);
    on_device = omega (arith, e, s.on_device);
  }

  pub patched-IsFile : IsFile after ino len
  patched-IsFile = record {
    here = moved refl f.here;
    has_length = in_inode 0 ∙ f.has_length;
    fits = f.fits;
    block = λ i h. moved (same_block i h) (f.block i h);
    single = λ h. moved (in_inode 56) (f.single h);
    double = λ h. moved (in_inode 60) (f.double h);
    indirect = λ k h. moved (same_indirect k (omega arith)) (f.indirect k h);
    distinct = λ i j p q e. f.distinct i j p q (sym (same_block i p) ∙ e ∙ same_block j q);
    not_inode = λ i h e. f.not_inode i h (sym (same_block i h) ∙ e);
    not_single = λ i h q e. f.not_single i h q (sym (same_block i h) ∙ e ∙ in_inode 56);
    not_double = λ i h q e. f.not_double i h q (sym (same_block i h) ∙ e ∙ in_inode 60);
    not_indirect = λ i k h q e.
        f.not_indirect i k h q (sym (same_block i h) ∙ e ∙ same_indirect k (omega arith));
  }

  -- The bytes of the file afterwards.
  pub patched-byte_at :
      (pos : ℕ)
      → pos < len
      → o + length bytes ≤ sector_size
      → byte_at after ino pos ≡ (
          if leb (b * sector_size + o) pos && ltb pos (b * sector_size + o + length bytes)
          then get_or bytes (pos - (b * sector_size + o)) 0
          else byte_at st ino pos)
  unfolding splice
  patched-byte_at pos h fits =
      ap (λ s. after.bytes s (pos % 512)) (same_block (pos / 512) (omega arith))
      ∙ elim (Bool-cases (pos / 512 == b)) [
        | inl e ↦
            let q : pos / 512 ≡ b = eq_of_== (pos / 512) b e in
            rw (q, ==_self (block_of st ino b))
              (elim (Bool-cases (leb o (pos % 512) && ltb (pos % 512) (o + length bytes))) [
                | inl t ↦
                    let u : (leb (b * 512 + o) pos && ltb pos (b * 512 + o + length bytes)) ≡ true =
                      ground (arith, q, t) in
                    let d : pos % 512 - o ≡ pos - (b * 512 + o) = ground (arith, q, t) in
                    rw (t, u) (ap (λ k. get_or bytes k 0) d)
                | inr t ↦
                    let u : (leb (b * 512 + o) pos && ltb pos (b * 512 + o + length bytes))
                        ≡ false =
                      ground (arith, q, t) in
                    rw (t, u) (ap (λ k. st.bytes (block_of st ino k) (pos % 512)) (sym q))
              ])
        | inr e ↦
            let out : (leb (b * 512 + o) pos && ltb pos (b * 512 + o + length bytes)) ≡ false =
              ground (arith, ne_of_== (pos / 512) b e) in
            rw out (
              ap (λ m. m (pos % 512))
                (patched-elsewhere (block_of st ino (pos / 512)) (λ s.
                  ne_of_== (pos / 512) b e
                    (f.distinct (pos / 512) b (omega arith) in_file (sym s)))))
      ]
