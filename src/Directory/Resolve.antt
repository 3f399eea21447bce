-- ===== src/Directory/Resolve.antt =====
-- directory.c: `get_inode_from_path` on a path that leads from directory to directory.
use group.Base.{
  ℕ, zero, suc, ◌+◌, ◌≤◌, ◌<◌, ◌≡◌, refl, sym, ap, ◌∙◌, true, Option, none, some, List, [], ◌∷◌,
  ◌==◌, length, arith, Bool-cases, inl, inr, eq_of_==, ==_self, Yields, Yields-bind, Yields-mono,
}
use group.Inode.{Inode, Store}
use group.Inode.Table.{inode_open, inode_reopen}
use group.Inode.Counts.{openers}
use group.Directory.{
  DirEntry, NextPart, end, too_long, got, get_next_part, inode_sector, lookup_unsynched, open_found,
  dir_lookup_unsynched,
}
use group.Directory.Names.{IsText, Maps}
use group.Directory.Lookup.{slot, IsDir, Looked, lookup_unsynched-Looked}
use group.Directory.Parts.{components, Split, get_next_part-Split}
use group.Directory.Walk.{Fs, at_end, step_into, walk_part, walk_loop, dir_close}
use group.Directory.Counts.{
  IsClean, OneMore, OneLess, one_at, inode_open-OneMore, inode_reopen-OneMore, dir_close-OneLess,
  to_be_removed-kept,
}

-- An entry of the well-formed directory at `s` leads to `next`.
pub record Leads (st : Store) (s : ℕ) (name : List ℕ) (next : ℕ) : Type 0 where
  pub cnt : ℕ
  pub is_dir : IsDir st s cnt
  pub text : IsText name
  pub short : length name ≤ 14
  pub maps : Maps (slot st s) cnt name next

-- The names lead from `s` to `target`, one after the other.
abbrev pub Resolves : Store → ℕ → List (List ℕ) → ℕ → Type 0
Resolves st s [] target = s ≡ target
Resolves st s (name ∷ names) target =
    (next : ℕ) × Leads st s name next × Resolves st next names target

-- The inode found, and one opener moved from the directory where the walk starts to it.
pub record Arrived (s target : ℕ) (t : List Inode) (st : Store) (r : Option ℕ × Fs) : Type 0 where
  pub found : r.0 ≡ some target
  pub clean : IsClean r.1.0
  pub sectors : r.1.1 ≡ st
  pub counts : (x : ℕ) → openers x r.1.0 + one_at s x ≡ openers x t + one_at target x

pub one_here : (s : ℕ) → one_at s s ≡ 1
one_here s = rw (==_self s) refl

still : (s next : ℕ) (t : List Inode) → 0 < openers s t → one_at s next ≤ openers next t
still s next t h = elim (Bool-cases (next == s)) [
  | inl e ↦ rw e (rw (eq_of_== next s e) h)
  | inr e ↦ rw e (omega arith)
]

-- `dir_lookup_unsynched` of a name that is there opens its inode.
dir_lookup-opens :
    (st : Store) (s cnt next : ℕ) (d : IsDir st s cnt) (name : List ℕ)
    → IsText name
    → Maps (slot st s) cnt name next
    → (t : List Inode) → IsClean t
    → Yields (dir_lookup_unsynched s name (t, st)) (λ r. (r.0 ≡ some next) × OneMore next t r.1)
unfolding dir_lookup_unsynched open_found
dir_lookup-opens st s cnt next d name text m t c =
    Yields-bind (Looked (slot st s) cnt name 0) _ (lookup_unsynched s name st) _
      (lookup_unsynched-Looked st s cnt d name text) opens
  where
    opens :
        (found : Option (DirEntry × ℕ))
        → Looked (slot st s) cnt name 0 found
        → Yields (open_found name found t) (λ r. (r.0 ≡ some next) × OneMore next t r.1)
    opens none absent = absurd (absent m.at (omega arith) m.inside m.calls)
    opens (some (e, ofs)) (k, p, q, at, same, calls) =
        let leads : inode_sector e ≡ next =
          ap inode_sector same
          ∙ ap (λ i. inode_sector (slot st s i))
              (d.names.unique k m.at q m.inside name calls m.calls)
          ∙ m.leads in
        rw leads (
          Yields-bind (OneMore next t) _ (inode_open true next t) _ (inode_open-OneMore next t c)
            (λ t' o. (refl, o)))

-- The close of the directory that the walk leaves, with the inode that it goes on to open.
left :
    (s target : ℕ) (t t' : List Inode) (st : Store) (r : Fs)
    → OneMore target t t'
    → OneLess s t' r.0 × (r.1 ≡ st)
    → Arrived s target t st (some target, r)
left s target t t' st r m (l, e) = record {
  found = refl;
  clean = l.clean;
  sectors = e;
  counts = λ x. omega (arith, l.counts x, m.counts x);
}

at_end-Arrived :
    (st : Store) (s : ℕ) (t : List Inode)
    → IsClean t
    → 0 < openers s t
    → Yields (at_end s (t, st)) (Arrived s s t st)
unfolding at_end
at_end-Arrived st s t c h = rw (to_be_removed-kept s t c.kept h) (
    Yields-bind (OneMore s t) _ (inode_reopen s t) _ (inode_reopen-OneMore s t c h) (λ t' m.
      Yields-bind (λ (r : Fs). OneLess s t' r.0 × (r.1 ≡ st)) _ (dir_close s (t', st)) _
        (dir_close-OneLess s t' st m.clean (omega (arith, m.counts s)))
        (λ r l. left s s t t' st r m l)))

module _ (st : Store) (path : List ℕ) where
  -- The step to the directory of the next name, and the rest of the walk.
  step_into-Arrived :
      (s next target : ℕ) (t t' : List Inode)
      → 0 < openers s t
      → OneMore next t t'
      → (go : ℕ → Fs → Option (Option ℕ × Fs))
      → ((t : List Inode)
          → IsClean t
          → 0 < openers next t
          → Yields (go next (t, st)) (Arrived next target t st))
      → Yields (step_into go s (some next, t') st) (Arrived s target t st)
  unfolding step_into
  step_into-Arrived s next target t t' h m go again =
      rw (to_be_removed-kept s t' m.clean.kept (omega (arith, m.counts s))) (
        Yields-bind (λ (r : Fs). OneLess s t' r.0 × (r.1 ≡ st)) _ (dir_close s (t', st)) _
          (dir_close-OneLess s t' st m.clean (omega (arith, m.counts s)))
          (λ (t₂, st₂) (l, e). rw e (
            Yields-mono (Arrived next target t₂ st) (Arrived s target t st) (go next (t₂, st))
              (again t₂ l.clean
                (omega (arith, l.counts next, m.counts next, one_here next, still s next t h)))
              (λ r a. onward t₂ l r a))))
    where
      onward :
          (t₂ : List Inode)
          → OneLess s t' t₂
          → (r : Option ℕ × Fs) → Arrived next target t₂ st r
          → Arrived s target t st r
      onward t₂ l r a = record {
        found = a.found;
        clean = a.clean;
        sectors = a.sectors;
        counts = λ x. omega (arith, a.counts x, l.counts x, m.counts x);
      }

  pub walk_loop-Arrived :
      (fuel : ℕ) (src : List ℕ) (s target : ℕ) (names : List (List ℕ)) (t : List Inode)
      → length src < fuel
      → components src ≡ names
      → Resolves st s names target
      → IsClean t
      → 0 < openers s t
      → Yields (walk_loop fuel path src s (t, st)) (Arrived s target t st)
  unfolding walk_loop walk_part Split
  walk_loop-Arrived zero src s target names t f q r c h = absurd (omega arith)
  walk_loop-Arrived (suc fuel) src s target names t f q r c h =
      round (get_next_part src) (get_next_part-Split src) names q r
        (λ rest n names t p e r c h. walk_loop-Arrived fuel rest n target names t p e r c h)
    where
      round :
          (p : NextPart)
          → Split src p
          → (names : List (List ℕ)) → components src ≡ names
          → Resolves st s names target
          → ((rest : List ℕ) (n : ℕ) (names : List (List ℕ)) (t : List Inode)
              → length rest < fuel
              → components rest ≡ names
              → Resolves st n names target
              → IsClean t
              → 0 < openers n t
              → Yields (walk_loop fuel path rest n (t, st)) (Arrived n target t st))
          → Yields (walk_part (walk_loop fuel path) path p s (t, st)) (Arrived s target t st)
      round end sp [] q r again = rw (sym r) (at_end-Arrived st s t c h)
      round end sp (w ∷ ws) q r again = absurd (ground (arith, sp, q))
      round too_long (w, ws, a, l) [] q r again = absurd (ground (arith, a, q))
      round too_long (w, ws, a, l) (name ∷ names) q (next, e, r) again =
          let same : w ≡ name = cc in absurd (omega (arith, ap length same, e.short))
      round (got w rest) (a, pos, fit, l) [] q r again = absurd (ground (arith, a, q))
      round (got w rest) (a, pos, fit, l) (name ∷ names) q (next, e, r) again =
          let same : w ≡ name = cc in
          let more : components rest ≡ names = cc in
          rw same (
            Yields-bind (λ f. (f.0 ≡ some next) × OneMore next t f.1) _
              (dir_lookup_unsynched s name (t, st)) _
              (dir_lookup-opens st s e.cnt next e.is_dir name e.text e.maps t c)
              (λ (o, t') (found, m). rw found (
                step_into-Arrived s next target t t' h m (walk_loop fuel path rest)
                  (λ t₂ c₂ h₂. again rest next names t₂ (omega arith) more r c₂ h₂))))
