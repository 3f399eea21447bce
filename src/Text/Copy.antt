-- ===== src/Text/Copy.antt =====
-- string.c: what `strlcpy` and `strlcat` leave in the buffer.
use group.Base.{
  ℕ, ◌+◌, ◌-◌, ◌≤◌, ◌<◌, ◌≡◌, ◌≢◌, refl, sym, ap, ◌∙◌, true, false, ◌&&◌, ◌==◌, ltb, if◌then◌else◌,
  min, arith, ==_ne, ==_self, Bool-cases, inl, inr, Yields, Yields-bind,
}
use group.Text.{Memory, address_space, memcpy, copy_up, copy_some, strlcpy, strlcat}
use group.Text.Move.{in_block, Moved, copy_up-Moved}
use group.Text.Terminated.{IsString, strlen-IsString}

-- The first `cnt` characters of `src` stand at `dst`, a null byte behind them; no other byte changed.
pub record CopiedString (dst src cnt : ℕ) (m m' : Memory) : Type 0 where
  pub string : IsString m' dst cnt
  pub same : (k : ℕ) → k < cnt → m' (dst + k) ≡ m (src + k)
  pub others : (a : ℕ) → in_block dst (cnt + 1) a ≡ false → m' a ≡ m a

module _ (dst src n : ℕ) (m : Memory) (d : dst ≢ 0) (s : src ≢ 0) (i : IsString m src n) where
  copy_some-CopiedString :
      (room : ℕ)
      → ((k : ℕ) → k ≤ n → in_block dst (room + 1) (src + k) ≡ false)
      → Yields (copy_some dst src n room m) (CopiedString dst src (min n room) m)
  unfolding copy_some memcpy
  copy_some-CopiedString room apart =
      rw (==_ne dst 0 d, ==_ne src 0 s)
        (record {
          string = record {
            chars = λ k h. rw (before k h) (λ z. i.chars k (ground arith) (sym (moved k h) ∙ z));
            end = rw (==_self (dst + min n room)) refl;
          };
          same = λ k h. rw (before k h) (moved k h);
          others = λ a h.
              let q : (a == dst + min n room) ≡ false = ground arith in
              let o : in_block dst (min n room) a ≡ false = ground arith in
              rw q (copied a ∙ rw o refl);
        })
    where
      copied : Moved dst src (min n room) m (copy_up (min n room) dst src m)
      copied =
          copy_up-Moved (min n room) dst src m (λ k p q e. ground (arith, apart k (ground arith)))

      before : (k : ℕ) → k < min n room → (dst + k == dst + min n room) ≡ false
      before k h = ground arith

      moved : (k : ℕ) → k < min n room → copy_up (min n room) dst src m (dst + k) ≡ m (src + k)
      moved k h =
          let o : in_block dst (min n room) (dst + k) ≡ true = ground arith in
          let e : dst + k - dst ≡ k = omega arith in copied (dst + k) ∙ rw (o, e) refl

  -- `strlcpy` of a string of `n` characters, apart from a buffer of `size` bytes, returns `n` and leaves
  -- in the buffer a string of its first `size` - 1 characters at most, changing no byte outside of the
  -- buffer; with no buffer it changes nothing.
  pub strlcpy-CopiedString :
      (size : ℕ)
      → n < address_space
      → ((k : ℕ) → k ≤ n → in_block dst size (src + k) ≡ false)
      → Yields (strlcpy dst src size m) (λ r.
        (r.0 ≡ n) × (if ltb 0 size then CopiedString dst src (min n (size - 1)) m r.1 else r.1 ≡ m))
  unfolding strlcpy
  strlcpy-CopiedString size short apart =
      rw (==_ne dst 0 d, ==_ne src 0 s, strlen-IsString src n m s i short)
        (elim (Bool-cases (ltb 0 size)) [
          | inl e ↦
              let whole : size - 1 + 1 ≡ size = ground arith in
              rw e (
                Yields-bind (CopiedString dst src (min n (size - 1)) m) _
                  (copy_some dst src n (size - 1) m) _
                  (copy_some-CopiedString (size - 1) (λ k h. rw whole (apart k h)))
                  (λ m' c. (refl, c)))
          | inr e ↦ rw e (refl, refl)
        ])

-- `strlcat` onto a string of `k` characters in a buffer of `size` bytes, apart from the string of `n`
-- characters that is added, returns `k` + `n`. When the buffer holds the first string, it then holds a
-- string of `size` - 1 characters at most, the old ones and behind them the first of the new; no byte
-- before the old end or outside of the buffer changed. Otherwise nothing changes, and
-- no null byte is written.
pub strlcat-CopiedString :
    (dst src k n size : ℕ) (m : Memory)
    → dst ≢ 0
    → src ≢ 0
    → IsString m dst k
    → IsString m src n
    → k < address_space
    → n < address_space
    → ((j : ℕ) → j ≤ n → in_block dst size (src + j) ≡ false)
    → Yields (strlcat dst src size m) (λ r.
      (r.0 ≡ n + k)
      × (if ltb k size
          then CopiedString (dst + k) src (min n (size - k - 1)) m r.1
            × IsString r.1 dst (k + min n (size - k - 1))
          else r.1 ≡ m))
unfolding strlcat
strlcat-CopiedString dst src k n size m d s i j short_k short_n apart =
    rw
      (
        ==_ne dst 0 d,
        ==_ne src 0 s,
        strlen-IsString src n m s j short_n,
        strlen-IsString dst k m d i short_k,
      )
      (elim (Bool-cases (ltb k size)) [
        | inl e ↦
            let pos : ltb 0 size ≡ true = ground arith in
            rw (e, pos)
              (Yields-bind (CopiedString (dst + k) src (min n (size - k - 1)) m) _
                (copy_some (dst + k) src n (size - k - 1) m) _
                (copy_some-CopiedString (dst + k) src n m (λ z. d (omega (arith, z))) s j
                  (size - k - 1) (λ h p. ground (arith, apart h p)))
                (λ m' c. (refl, (c, joined m' (size - k - 1) c))))
        | inr e ↦ rw e (let z : (ltb 0 size && false) ≡ false = ground arith in rw z (refl, refl))
      ])
  where
    joined :
        (m' : Memory) (room : ℕ)
        → CopiedString (dst + k) src (min n room) m m'
        → IsString m' dst (k + min n room)
    joined m' room c = record {
      chars = λ h q. elim (Bool-cases (ltb h k)) [
        | inl e ↦
            let out : in_block (dst + k) (min n room + 1) (dst + h) ≡ false = ground arith in
            λ z. i.chars h (ground arith) (sym (c.others (dst + h) out) ∙ z)
        | inr e ↦
            let at : dst + h ≡ dst + k + (h - k) = ground arith in
            rw at (c.string.chars (h - k) (ground arith))
      ];
      end =
          let at : dst + (k + min n room) ≡ dst + k + min n room = omega arith in
          ap m' at ∙ c.string.end;
    }
