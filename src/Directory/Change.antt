-- ===== src/Directory/Change.antt =====
-- directory.c: the names of a directory after the change of one slot.
use group.Base.{
  ℕ, ◌<◌, ◌≡◌, ◌≢◌, refl, sym, ap, ◌∙◌, true, some, List, ◌==◌, update, Bool-cases, inl, inr,
  eq_of_==, ne_of_==, ==_ne, ==_self, ◌↔◌, subst,
}
use group.Directory.{DirEntry, in_use, name_field, c_string, inode_sector}
use group.Directory.Names.{Calls, IsNames, Maps}

-- Every name but one leads where it led.
abbrev pub OthersKept : (ℕ → DirEntry) → (ℕ → DirEntry) → ℕ → List ℕ → Type 0
OthersKept slots slots' cnt name =
    (n : List ℕ) (s : ℕ) → n ≢ name → Maps slots cnt n s ↔ Maps slots' cnt n s

module _ (slots slots' : ℕ → DirEntry) (cnt k : ℕ) (e : DirEntry) (inside : k < cnt)
    (changed : (j : ℕ) → j < cnt → slots' j ≡ update slots k e j) where
  pub here : slots' k ≡ e
  here = changed k inside ∙ rw (==_self k) refl

  pub elsewhere : (j : ℕ) → j < cnt → j ≢ k → slots' j ≡ slots j
  elsewhere j h ne = changed j h ∙ rw (==_ne j k ne) refl

  -- The names stay well formed when nobody else has the new name.
  pub changed-IsNames :
      IsNames slots cnt
      → (in_use e ≡ true → (s : List ℕ) × (c_string (name_field e) ≡ some s))
      → ((j : ℕ) → j < cnt → (s : List ℕ) → Calls e s → Calls (slots j) s → j ≡ k)
      → IsNames slots' cnt
  changed-IsNames i named fresh = record {
    named = λ j h u. elim (Bool-cases (j == k)) [
      | inl q ↦
          let jk : slots' j ≡ e = ap slots' (eq_of_== j k q) ∙ here in
          rw jk (named (sym (ap in_use jk) ∙ u))
      | inr q ↦
          let old : slots' j ≡ slots j = elsewhere j h (ne_of_== j k q) in
          rw old (i.named j h (sym (ap in_use old) ∙ u))
    ];
    unique = λ j m p q s a b. elim (Bool-cases (j == k)) [
      | inl ej ↦
          let jk : j ≡ k = eq_of_== j k ej in
          elim (Bool-cases (m == k)) [
            | inl em ↦ jk ∙ sym (eq_of_== m k em)
            | inr em ↦
                jk
                ∙ sym (
                    fresh m q s (subst (λ x. Calls x s) (ap slots' jk ∙ here) a)
                      (subst (λ x. Calls x s) (elsewhere m q (ne_of_== m k em)) b))
          ]
      | inr ej ↦
          let a' = subst (λ x. Calls x s) (elsewhere j p (ne_of_== j k ej)) a in
          elim (Bool-cases (m == k)) [
            | inl em ↦
                let mk : m ≡ k = eq_of_== m k em in
                fresh j p s (subst (λ x. Calls x s) (ap slots' mk ∙ here) b) a' ∙ sym mk
            | inr em ↦
                i.unique j m p q s a' (subst (λ x. Calls x s) (elsewhere m q (ne_of_== m k em)) b)
          ]
    ];
  }

  -- A slot that has other names neither before nor after takes none of them away.
  pub changed-OthersKept :
      (name : List ℕ)
      → ((n : List ℕ) → n ≢ name → Calls (slots k) n → ⊥)
      → ((n : List ℕ) → n ≢ name → Calls e n → ⊥)
      → OthersKept slots slots' cnt name
  changed-OthersKept name before after n s ne = (there, back)
    where
      there : Maps slots cnt n s → Maps slots' cnt n s
      there m =
          let apart : m.at ≢ k = λ q. before n ne (subst (λ j. Calls (slots j) n) q m.calls) in
          let old : slots' m.at ≡ slots m.at = elsewhere m.at m.inside apart in
          record { at = m.at; inside = m.inside; calls = rw old m.calls; leads = rw old m.leads }

      back : Maps slots' cnt n s → Maps slots cnt n s
      back m =
          let apart : m.at ≢ k =
            λ q. after n ne (subst (λ x. Calls x n) (ap slots' q ∙ here) m.calls) in
          let old : slots' m.at ≡ slots m.at = elsewhere m.at m.inside apart in
          record {
            at = m.at;
            inside = m.inside;
            calls = subst (λ x. Calls x n) old m.calls;
            leads = sym (ap inode_sector old) ∙ m.leads;
          }

-- A name has one sector.
pub Maps-unique :
    (slots : ℕ → DirEntry) (cnt : ℕ) (name : List ℕ) (s s' : ℕ)
    → IsNames slots cnt
    → Maps slots cnt name s
    → Maps slots cnt name s'
    → s ≡ s'
Maps-unique slots cnt name s s' i a b =
    sym a.leads
    ∙ ap (λ k. inode_sector (slots k)) (i.unique a.at b.at a.inside b.inside name a.calls b.calls)
    ∙ b.leads
