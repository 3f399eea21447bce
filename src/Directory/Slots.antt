-- ===== src/Directory/Slots.antt =====
-- directory.c: what a slot holds after `dir_add_unsynched` or `dir_remove` has filled it, and the
-- directory after the write of one slot.
use group.Base.{
  ℕ, zero, suc, ◌+◌, ◌-◌, ◌*◌, ◌≤◌, ◌<◌, ◌≡◌, ◌≢◌, refl, sym, ap, ap₂, ◌∙◌, true, false, ◌&&◌, some,
  List, [], ◌∷◌, ◌++◌, ◌==◌, leb, ltb, update, min, length, take, drop, get_or, arith, Bool-cases,
  inl, inr, eq_of_==, ne_of_==, ==_ne, length-append, length-take, length-drop,
}
use group.Inode.{Store, of_bytes, to_bytes}
use group.Inode.Read.{byte_at, contents}
use group.Inode.Write.{Written}
use group.Inode.RoundTrip.{contents-eq}
use group.Directory.{
  DirEntry, entry_size, name_max, name_field, inode_sector, c_string, copy_name, fill_entry,
}
use group.Directory.Names.{IsText, Calls}
use group.Directory.Lookup.{slot}

take_all : (xs ys : List ℕ) (n : ℕ) → length xs ≡ n → take n (xs ++ ys) ≡ xs
take_all [] ys zero h = refl
take_all [] ys (suc n) h = absurd (omega arith)
take_all (x ∷ xs) ys zero h = absurd (omega arith)
take_all (x ∷ xs) ys (suc n) h = ap (λ zs. x ∷ zs) (take_all xs ys n (omega arith))

take_more : (xs : List ℕ) (n : ℕ) → length xs ≤ n → take n xs ≡ xs
take_more [] zero h = refl
take_more [] (suc n) h = refl
take_more (x ∷ xs) zero h = absurd (omega arith)
take_more (x ∷ xs) (suc n) h = ap (λ zs. x ∷ zs) (take_more xs n (omega arith))

get_or-append : (xs ys : List ℕ) (n : ℕ) → length xs ≡ n → get_or (xs ++ ys) n 0 ≡ get_or ys 0 0
get_or-append [] ys zero h = refl
get_or-append [] ys (suc n) h = absurd (omega arith)
get_or-append (x ∷ xs) ys zero h = absurd (omega arith)
get_or-append (x ∷ xs) ys (suc n) h = get_or-append xs ys n (omega arith)

of_bytes-to_bytes : (w : ℕ) → w < 4294967296 → of_bytes (to_bytes 4 w) ≡ w
of_bytes-to_bytes w h = omega arith

c_string-append : (name tail : List ℕ) → IsText name → c_string (name ++ 0 ∷ tail) ≡ some name
unfolding c_string
c_string-append [] tail t = refl
c_string-append (x ∷ name) tail t = rw (==_ne x 0 t.0, c_string-append name tail t.1) refl

module _ (e : DirEntry) (whole : length e ≡ entry_size) (name : List ℕ) (t : IsText name)
    (short : length name ≤ name_max) where
  copied : copy_name name (name_field e) ≡ name ++ 0 ∷ drop (length name + 1) (name_field e)
  unfolding copy_name
  copied =
      let m : min (length name) 14 ≡ length name = ground arith in
      rw (m, take_more name 14 short) refl

  length-copy_name : length (copy_name name (name_field e)) ≡ 15
  length-copy_name =
      let l : length (name_field e) ≡ 15 =
        length-take 15 (drop 4 e) (omega (arith, length-drop 4 e (omega arith))) in
      rw copied (
        omega (
          arith,
          length-append name (0 ∷ drop (length name + 1) (name_field e)),
          length-drop (length name + 1) (name_field e) (omega arith),
        ))

  pub length-fill_entry : (sector : ℕ) → length (fill_entry e name sector) ≡ entry_size
  unfolding fill_entry
  length-fill_entry sector =
      omega (arith, length-append (copy_name name (name_field e)) (1 ∷ []), length-copy_name)

  pub fill_entry-Calls : (sector : ℕ) → Calls (fill_entry e name sector) name
  unfolding fill_entry
  fill_entry-Calls sector = record {
    used = rw (get_or-append (copy_name name (name_field e)) (1 ∷ []) 15 length-copy_name) refl;
    named =
        rw (take_all (copy_name name (name_field e)) (1 ∷ []) 15 length-copy_name, copied)
          (c_string-append name (drop (length name + 1) (name_field e)) t);
  }

  pub inode_sector-fill_entry :
      (sector : ℕ) → sector < 4294967296 → inode_sector (fill_entry e name sector) ≡ sector
  unfolding fill_entry
  inode_sector-fill_entry sector h = of_bytes-to_bytes sector h

pub contents-same :
    (st st' : Store) (ino pos n : ℕ)
    → ((i : ℕ) → i < n → byte_at st' ino (pos + i) ≡ byte_at st ino (pos + i))
    → contents st' ino pos n ≡ contents st ino pos n
unfolding contents
contents-same st st' ino pos zero h = refl
contents-same st st' ino pos (suc n) h =
    let e : pos ≡ pos + 0 = omega arith in
    ap₂ (λ y ys. y ∷ ys) (ap (byte_at st' ino) e ∙ h 0 (omega arith) ∙ sym (ap (byte_at st ino) e))
      (contents-same st st' ino (pos + 1) n (λ i q.
        let e₂ : pos + 1 + i ≡ pos + suc i = omega arith in
        ap (byte_at st' ino) e₂ ∙ h (suc i) (omega arith) ∙ sym (ap (byte_at st ino) e₂)))

-- The write of a whole slot changes that slot only.
pub slot-Written :
    (st st' : Store) (dir cnt k w : ℕ) (e : DirEntry)
    → length e ≡ entry_size
    → k < cnt
    → Written st dir (cnt * entry_size) e (k * entry_size) w st'
    → (j : ℕ) → j < cnt
    → slot st' dir j ≡ update (slot st dir) k e j
slot-Written st st' dir cnt k w e whole inside wr j lt = elim (Bool-cases (j == k)) [
  | inl q ↦
      let jk : j ≡ k = eq_of_== j k q in
      rw q (
        rw jk (
          ap (contents st' dir (k * 20)) (sym whole)
          ∙ contents-eq st' dir (k * 20) e (λ i h.
            let t : (leb (k * 20) (k * 20 + i) && ltb (k * 20 + i) (k * 20 + length e)) ≡ true =
              ground arith in
            let d : k * 20 + i - k * 20 ≡ i = omega arith in
            wr.byte (k * 20 + i) (omega arith) ∙ rw (t, d) refl)))
  | inr q ↦ rw q (
      contents-same st st' dir (j * 20) 20 (λ i h.
        let ne : j ≢ k = ne_of_== j k q in
        let t : (leb (k * 20) (j * 20 + i) && ltb (j * 20 + i) (k * 20 + length e)) ≡ false =
          ground arith in
        wr.byte (j * 20 + i) (omega arith) ∙ rw t refl))
]
