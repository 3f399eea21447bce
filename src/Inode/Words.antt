-- ===== src/Inode/Words.antt =====
-- inode.c: the words of the sectors after one of them is written.
use group.Base.{
  ℕ, ◌+◌, ◌≤◌, ◌<◌, ◌≡◌, ◌≢◌, refl, ap, ◌∙◌, true, false, ◌&&◌, some, ◌==◌, leb, ltb, length, arith,
  Bool-cases, inl, inr, ==_ne, ==_self, eq_of_==, ◌⊎◌,
}
use group.Cache.{Bytes, sector_size, slice, splice}
use group.Cache.RoundTrip.{slice-splice}
use group.Inode.{Store, of_bytes, to_bytes, put}
use group.Inode.Blocks.{word}
use group.Inode.Patch.{patched}

-- The store after `put`.
abbrev pub put_word : Store → ℕ → ℕ → ℕ → Store
put_word st sector at w = patched st sector at (to_bytes 4 w)

pub put-put_word :
    (st : Store) (sector at w : ℕ)
    → sector < st.size
    → at + 4 ≤ sector_size
    → put sector at w st ≡ some (put_word st sector at w)
put-put_word st sector at w p q =
    let a : ltb sector st.size ≡ true = ground arith in
    let b : leb (at + 4) sector_size ≡ true = ground arith in rw (a, b) refl

pub put_word-bytes :
    (st : Store) (sector at w x : ℕ) → x ≢ sector → (put_word st sector at w).bytes x ≡ st.bytes x
put_word-bytes st sector at w x h = rw (==_ne x sector h) refl

pub word-put_word :
    (st : Store) (sector at w : ℕ) → w < 4294967296 → word (put_word st sector at w) sector at ≡ w
word-put_word st sector at w h =
    let back : of_bytes (to_bytes 4 w) ≡ w = omega arith in
    rw (==_self sector) (ap of_bytes (slice-splice (st.bytes sector) at (to_bytes 4 w)) ∙ back)

splice_outside :
    (b : Bytes) (at w i : ℕ) → (i < at) ⊎ (at + 4 ≤ i) → splice b at (to_bytes 4 w) i ≡ b i
unfolding splice
splice_outside b at w i h =
    let e : (leb at i && ltb i (at + length (to_bytes 4 w))) ≡ false = ground (arith, h) in
    rw e refl

pub word-put_word_ne :
    (st : Store) (sector at w x o : ℕ)
    → (x ≢ sector) ⊎ ((o + 4 ≤ at) ⊎ (at + 4 ≤ o))
    → word (put_word st sector at w) x o ≡ word st x o
unfolding slice
word-put_word_ne st sector at w x o (inl h) = rw (==_ne x sector h) refl
word-put_word_ne st sector at w x o (inr h) = elim (Bool-cases (x == sector)) [
  | inl e ↦
      let out : (i : ℕ) → o ≤ i → i < o + 4 → (i < at) ⊎ (at + 4 ≤ i) =
        λ i p q. ground (arith, h) in
      let b = st.bytes sector in
      rw
        (
          e,
          eq_of_== x sector e,
          splice_outside b at w o (out o (omega arith) (omega arith)),
          splice_outside b at w (o + 1) (out (o + 1) (omega arith) (omega arith)),
          splice_outside b at w (o + 1 + 1) (out (o + 1 + 1) (omega arith) (omega arith)),
          splice_outside b at w (o + 1 + 1 + 1) (out (o + 1 + 1 + 1) (omega arith) (omega arith)),
        )
        refl
  | inr e ↦ rw e refl
]

-- A sector of zeros has words of zero.
pub word_zero :
    (st : Store) (x o : ℕ)
    → ((i : ℕ) → i < sector_size → st.bytes x i ≡ 0)
    → o + 4 ≤ sector_size
    → word st x o ≡ 0
unfolding slice
word_zero st x o h q =
    rw
      (
        h o (omega arith),
        h (o + 1) (omega arith),
        h (o + 1 + 1) (omega arith),
        h (o + 1 + 1 + 1) (omega arith),
      )
      refl
