-- ===== src/Text/Terminated.antt =====
-- string.c: strings up to their null byte.
use group.Base.{
  ℕ, zero, suc, ◌+◌, ◌-◌, ◌%◌, ◌<◌, ◌≡◌, ◌≢◌, refl, sym, ap, ◌∙◌, false, none, some, ◌==◌,
  if◌then◌else◌, min, arith, ==_ne, Bool-cases, inl, inr, Yields, Yields-mono, eq_of_==, ne_of_==,
}
use group.Text.{
  Memory, address_space, strlen_loop, strlen, strnlen_loop, strnlen, strchr_loop, strchr,
}
use group.Text.Search.{FirstAt, found, absent, FirstAt-cons}

-- A string of `n` characters at `s`.
pub record IsString (m : Memory) (s n : ℕ) : Type 0 where
  pub chars : (k : ℕ) → k < n → m (s + k) ≢ 0
  pub end : m (s + n) ≡ 0

-- The string without its first character.
pub IsString-rest : (m : Memory) (s n : ℕ) → IsString m s (suc n) → IsString m (s + 1) n
IsString-rest m s n i = record {
  chars =
      λ k h. let e : s + 1 + k ≡ s + suc k = omega arith in rw e (i.chars (suc k) (omega arith));
  end = let e : s + 1 + n ≡ s + suc n = omega arith in ap m e ∙ i.end;
}

pub first_char : (m : Memory) (s n : ℕ) → IsString m s (suc n) → (m s == 0) ≡ false
first_char m s n i =
    let e : s ≡ s + 0 = omega arith in
    ==_ne (m s) 0 (λ z. i.chars 0 (omega arith) (sym (ap m e) ∙ z))

pub no_char : (m : Memory) (s : ℕ) → IsString m s 0 → m s ≡ 0
no_char m s i = let e : s ≡ s + 0 = omega arith in ap m e ∙ i.end

strlen_loop-IsString :
    (fuel s n : ℕ) (m : Memory) → IsString m s n → n < fuel → strlen_loop fuel s m ≡ some (s + n)
unfolding strlen_loop
strlen_loop-IsString zero s n m i h = absurd (omega arith)
strlen_loop-IsString (suc fuel) s zero m i h =
    let e : s ≡ s + 0 = omega arith in rw (no_char m s i) (ap some e)
strlen_loop-IsString (suc fuel) s (suc n) m i h =
    let e : s + 1 + n ≡ s + suc n = omega arith in
    rw (first_char m s n i)
      (strlen_loop-IsString fuel (s + 1) n m (IsString-rest m s n i) (omega arith) ∙ ap some e)

-- `strlen` of a string ends, and is its length.
pub strlen-IsString :
    (s n : ℕ) (m : Memory) → s ≢ 0 → IsString m s n → n < address_space → strlen s m ≡ some n
unfolding strlen
strlen-IsString s n m p i h =
    let e : s + n - s ≡ n = omega arith in
    rw (==_ne s 0 p, strlen_loop-IsString address_space s n m i h, e) refl

strnlen_loop-min :
    (left s len n : ℕ) (m : Memory)
    → IsString m (s + len) n
    → strnlen_loop left s len m ≡ len + min n left
unfolding strnlen_loop
strnlen_loop-min zero s len n m i = ground arith
strnlen_loop-min (suc left) s len zero m i =
    let e : len ≡ len + min 0 (suc left) = ground arith in rw (no_char m (s + len) i) e
strnlen_loop-min (suc left) s len (suc n) m i =
    let e : s + (len + 1) ≡ s + len + 1 = omega arith in
    let next : IsString m (s + (len + 1)) n = rw e (IsString-rest m (s + len) n i) in
    rw (first_char m (s + len) n i) (strnlen_loop-min left s (len + 1) n m next ∙ ground arith)

-- `strnlen` of a string is its length, or `maxlen` when that is less.
pub strnlen-min : (s maxlen n : ℕ) (m : Memory) → IsString m s n → strnlen s maxlen m ≡ min n maxlen
unfolding strnlen
strnlen-min s maxlen n m i =
    let e : s + 0 ≡ s = omega arith in
    let here : IsString m (s + 0) n = rw e i in strnlen_loop-min maxlen s 0 n m here ∙ omega arith

strchr_loop-FirstAt :
    (fuel s n c : ℕ) (m : Memory)
    → IsString m s n
    → n < fuel
    → Yields (strchr_loop fuel s c m) (FirstAt m s (n + 1) c)
unfolding strchr_loop
strchr_loop-FirstAt zero s n c m i h = omega arith
strchr_loop-FirstAt (suc fuel) s n c m i h = elim (Bool-cases (m s == c)) [
  | inl e ↦
      rw e (found (omega arith) (omega arith) (eq_of_== (m s) c e) (λ j p q. absurd (omega arith)))
  | inr e ↦
      rw e (after (λ n j q. strchr_loop-FirstAt fuel (s + 1) n c m j q) n i h (ne_of_== (m s) c e))
]
  where
    after :
        ((n : ℕ)
          → IsString m (s + 1) n
          → n < fuel
          → Yields (strchr_loop fuel (s + 1) c m) (FirstAt m (s + 1) (n + 1) c))
        → (n : ℕ) → IsString m s n
        → n < suc fuel
        → m s ≢ c
        → Yields
            (if m s == 0 then some none else strchr_loop fuel (s + 1) c m)
            (FirstAt m s (n + 1) c)
    after again zero i h ne =
        rw (no_char m s i) (absent (λ j p q. let e : j ≡ s = omega arith in rw e ne))
    after again (suc n) i h ne =
        let e : suc n + 1 ≡ suc (n + 1) = omega arith in
        rw (first_char m s n i, e)
          (Yields-mono (FirstAt m (s + 1) (n + 1) c) (FirstAt m s (suc (n + 1)) c)
            (strchr_loop fuel (s + 1) c m) (again n (IsString-rest m s n i) (omega arith))
            (λ o f. FirstAt-cons m s (n + 1) c ne f))

-- `strchr` of a string ends: it returns the first place of the character, the null byte of the string
-- included, or NULL when there is none.
pub strchr-FirstAt :
    (s n c : ℕ) (m : Memory)
    → s ≢ 0
    → IsString m s n
    → n < address_space
    → Yields (strchr s c m) (FirstAt m s (n + 1) (c % 256))
unfolding strchr
strchr-FirstAt s n c m p i h =
    rw (==_ne s 0 p) (strchr_loop-FirstAt address_space s n (c % 256) m i h)
