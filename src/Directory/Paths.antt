-- ===== src/Directory/Paths.antt =====
-- directory.c: `get_inode_from_path`, from the root or from the working directory.
use group.Base.{
  ℕ, suc, ◌+◌, ◌<◌, ◌≡◌, refl, sym, Bool, true, false, Option, none, some, List, [], ◌∷◌,
  if◌then◌else◌, ◌>>=◌, length, arith, Bool-cases, inl, inr, Yields, Yields-bind, Yields-mono,
  subst,
}
use group.FreeMap.{root_dir_sector}
use group.Inode.{Inode, Store}
use group.Inode.Table.{inode_open, inode_reopen}
use group.Inode.Counts.{openers}
use group.Directory.{slash, c_string, str_eq}
use group.Directory.Names.{IsText, Agrees, str_eq-Agrees}
use group.Directory.Parts.{components, components-nil, components-root}
use group.Directory.Walk.{
  Fs, walk_loop, walk, is_relative, dir_open_root, dir_reopen, get_inode_from_path, cwd_inode,
}
use group.Directory.Counts.{
  IsClean, OneMore, one_at, inode_open-OneMore, inode_reopen-OneMore, to_be_removed-kept,
  found_open,
}
use group.Directory.Resolve.{Resolves, Arrived, walk_loop-Arrived, one_here}

from_nowhere : is_relative [] ≡ true
unfolding is_relative
from_nowhere = refl

from_slash : is_relative (slash ∷ []) ≡ false
unfolding is_relative
from_slash = refl

-- What `get_inode_from_path` returns: the inode with one opener more.
pub record Resolved (target : ℕ) (t : List Inode) (st : Store) (r : Option ℕ × Fs) : Type 0 where
  pub found : r.0 ≡ some target
  pub clean : IsClean r.1.0
  pub sectors : r.1.1 ≡ st
  pub counts : (x : ℕ) → openers x r.1.0 ≡ openers x t + one_at target x

module _ (st : Store) (cwd : ℕ) (t : List Inode) (c : IsClean t) (h : 0 < openers cwd t) where
  opened :
      (path : List ℕ) (s target : ℕ) (t' : List Inode)
      → OneMore s t t'
      → Resolves st s (components path) target
      → Yields (walk path (some s, (t', st))) (Resolved target t st)
  unfolding walk
  opened path s target t' m r =
      Yields-mono (Arrived s target t' st) (Resolved target t st)
        (walk_loop (suc (length path)) path path s (t', st))
        (walk_loop-Arrived st path (suc (length path)) path s target (components path) t'
          (omega arith) refl r m.clean (omega (arith, m.counts s, one_here s)))
        (λ r a. record {
          found = a.found;
          clean = a.clean;
          sectors = a.sectors;
          counts = λ x. omega (arith, a.counts x, m.counts x);
        })

  -- A directory that is opened, with no change of the sectors.
  abbrev Entered : ℕ → ℕ × Fs → Type 0
  Entered s (dir, (t', st')) = (dir ≡ s) × OneMore s t t' × (st' ≡ st)

  root_opens : Yields (dir_open_root (t, st)) (Entered root_dir_sector)
  unfolding dir_open_root
  root_opens =
      Yields-bind (OneMore root_dir_sector t) _ (inode_open true root_dir_sector t) _
        (inode_open-OneMore root_dir_sector t c) (λ t' m. (refl, m, refl))

  from_root :
      (path : List ℕ) (target : ℕ)
      → Resolves st root_dir_sector (components path) target
      → Yields
          (dir_open_root (t, st) >>= λ (root, fs). walk path (some root, fs))
          (Resolved target t st)
  from_root path target r =
      Yields-bind (Entered root_dir_sector) _ (dir_open_root (t, st)) _ root_opens
        (λ (s, (t', st')) (q, m, e). rw (q, e) (opened path root_dir_sector target t' m r))

  abbrev Reentered : Option ℕ × Fs → Type 0
  Reentered (none, fs) = ⊥
  Reentered (some s, (t', st')) = (s ≡ cwd) × OneMore cwd t t' × (st' ≡ st)

  cwd_opens : Yields (dir_reopen cwd (t, st)) Reentered
  unfolding dir_reopen
  cwd_opens = rw (found_open cwd t h) (
      Yields-bind (OneMore cwd t) _ (inode_reopen cwd t) _ (inode_reopen-OneMore cwd t c h)
        (λ t' m. (refl, m, refl)))

  from_cwd :
      (path : List ℕ) (target : ℕ)
      → Resolves st cwd (components path) target
      → Yields (dir_reopen cwd (t, st) >>= walk path) (Resolved target t st)
  from_cwd path target r =
      Yields-bind Reentered _ (dir_reopen cwd (t, st)) _ cwd_opens (λ (s, fs) e. on s fs e)
    where
      on :
          (s : Option ℕ) (fs : Fs)
          → Reentered (s, fs)
          → Yields (walk path (s, fs)) (Resolved target t st)
      on none fs e = absurd e
      on (some s) (t', st') (q, m, e) = rw (q, e) (opened path cwd target t' m r)

  -- The directory where a path starts.
  abbrev start : List ℕ → ℕ
  start path = if is_relative path then cwd else root_dir_sector

  at_start :
      (target s : ℕ) (t' : List Inode)
      → OneMore s t t'
      → s ≡ target
      → Resolved target t st (some s, (t', st))
  at_start target s t' m e =
      rw (sym e) (record { found = refl; clean = m.clean; sectors = refl; counts = m.counts })

  -- `get_inode_from_path` of a path whose components lead from directory to directory, from the root for
  -- an absolute path and from the working directory for a relative one, while no open inode is removed,
  -- ends without a fault: it returns the inode at the end of the path with one opener more, and leaves
  -- the openers of all others and the sectors as they were.
  pub get_inode_from_path-Resolved :
      (path : List ℕ) (target : ℕ)
      → IsText path
      → Resolves st (start path) (components path) target
      → Yields (get_inode_from_path cwd path (t, st)) (Resolved target t st)
  unfolding get_inode_from_path cwd_inode c_string
  get_inode_from_path-Resolved [] target text r =
      rw (found_open cwd t h, to_be_removed-kept cwd t c.kept h)
        (Yields-bind (OneMore cwd t) _ (inode_reopen cwd t) _ (inode_reopen-OneMore cwd t c h)
          (λ t' m. at_start target cwd t' m (rw (components-nil, from_nowhere) at r)))
  get_inode_from_path-Resolved (x ∷ path) target text r =
      Yields-bind (Agrees (slash ∷ []) (x ∷ path)) _ (str_eq (x ∷ path) (slash ∷ 0 ∷ [])) _
        (str_eq-Agrees (x ∷ path) (slash ∷ 0 ∷ []) (slash ∷ []) text refl) (λ b a. branch b a)
    where
      branch :
          (b : Bool)
          → Agrees (slash ∷ []) (x ∷ path) b
          → Yields
              (if b
                then (dir_open_root (t, st) >>= λ (root, fs). some (some root, fs))
                else if is_relative (x ∷ path)
                then (dir_reopen cwd (t, st) >>= walk (x ∷ path))
                else (dir_open_root (t, st) >>= λ (root, fs). walk (x ∷ path) (some root, fs)))
              (Resolved target t st)
      branch true a =
          Yields-bind (Entered root_dir_sector) _ (dir_open_root (t, st)) _ root_opens
            (λ (s, (t', st')) (q, m, e).
              rw (q, e)
                (at_start target root_dir_sector t' m (
                  rw (components-root, from_slash) at
                    (subst (λ p. Resolves st (start p) (components p) target) (sym a) r))))
      branch false a = elim (Bool-cases (is_relative (x ∷ path))) [
        | inl e ↦ rw e (from_cwd (x ∷ path) target (rw e at r))
        | inr e ↦ rw e (from_root (x ∷ path) target (rw e at r))
      ]
