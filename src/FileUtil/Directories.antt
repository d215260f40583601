-- ===== src/FileUtil/Directories.antt =====
-- Making directories (easyrpc/base/file_util.hpp, `mkdir`).
use easyrpc.Prelude.{
  ℕ, ◌≡◌, ◌≢◌, ◌⊎◌, refl, sym, ◌∙◌, inl, inr, true, false, [], ◌∷◌, ◌++◌, append_assoc, append-nil,
  Bytes, Bool-cases, arith,
}
use easyrpc.StringUtil.{c_str}
use easyrpc.Posix.{Posix, PosixLaws}
use easyrpc.FileUtil.{is_empty, is_separator, is_exists, ensure, round, make_dirs, mkdir}

module _ {p : Posix} (laws : PosixLaws p) where
  ensure_keeps :
      (d e : Bytes) (f : p.Files) → is_exists p e f ≡ true → is_exists p e (ensure p d f).1 ≡ true
  unfolding ensure is_exists
  ensure_keeps d e f h = ground (arith, laws.mkdir_keeps (c_str d) (c_str e) f)

  ensure_makes :
      (d : Bytes) (f : p.Files) → (ensure p d f).0 ≡ true → is_exists p d (ensure p d f).1 ≡ true
  unfolding ensure is_exists
  ensure_makes d f h = ground (arith, laws.mkdir_makes (c_str d) f)

  round_keeps :
      (before : Bytes) (c : ℕ) (e : Bytes) (f : p.Files)
      → is_exists p e f ≡ true
      → is_exists p e (round p before c f).1 ≡ true
  unfolding round
  round_keeps before c e f h = ground (arith, ensure_keeps before e f)

  round_makes :
      (before : Bytes) (c : ℕ) (f : p.Files)
      → is_separator c ≡ true
      → before ≢ []
      → (round p before c f).0 ≡ true
      → is_exists p before (round p before c f).1 ≡ true
  unfolding round
  round_makes [] c f s ne h = absurd (ne refl)
  round_makes (d ∷ before) c f s ne h = ground (arith, ensure_makes (d ∷ before) f)

  make_dirs_keeps :
      (before rest e : Bytes) (f : p.Files)
      → is_exists p e f ≡ true
      → is_exists p e (make_dirs p before rest f).1 ≡ true
  unfolding make_dirs
  make_dirs_keeps before [] e f h = h
  make_dirs_keeps before (c ∷ rest) e f h = ground (
    arith,
    round_keeps before c e f,
    make_dirs_keeps (before ++ c ∷ []) rest e (round p before c f).1,
  )

  make_dirs_step :
      (before : Bytes) (c : ℕ) (rest : Bytes) (f : p.Files)
      → (make_dirs p before (c ∷ rest) f).0 ≡ true
      → ((round p before c f).0 ≡ true)
        × (make_dirs p before (c ∷ rest) f
            ≡ make_dirs p (before ++ c ∷ []) rest (round p before c f).1)
  unfolding make_dirs
  make_dirs_step before c rest f h = ground arith

  -- A loop that returns true has every directory whose name ends before a separator.
  make_dirs_makes :
      (before a b : Bytes) (c : ℕ) (f : p.Files)
      → is_separator c ≡ true
      → before ++ a ≢ []
      → (make_dirs p before (a ++ c ∷ b) f).0 ≡ true
      → is_exists p (before ++ a) (make_dirs p before (a ++ c ∷ b) f).1 ≡ true
  make_dirs_makes before [] b c f s ne h =
      let (made, next) = make_dirs_step before c b f h in
      let ne' : before ≢ [] = λ e. ne (rw append-nil e) in
      rw (append-nil before, next)
        (make_dirs_keeps (before ++ c ∷ []) b before (round p before c f).1
          (round_makes before c f s ne' made))
  make_dirs_makes before (d ∷ a) b c f s ne h =
      let (made, next) = make_dirs_step before d (a ++ c ∷ b) f h in
      let same : (before ++ d ∷ []) ++ a ≡ before ++ d ∷ a = append_assoc before (d ∷ []) a in
      rw (next, ← same)
        (make_dirs_makes (before ++ d ∷ []) a b c (round p before d f).1 s (λ e. ne (sym same ∙ e))
          (rw next at h))

  -- What a call that returns true has done: it found the path, or its loop returned true.
  mkdir_cases :
      (path : Bytes) (f : p.Files)
      → (mkdir p path f).0 ≡ true
      → (is_empty path ≡ false)
        × (((is_exists p path f ≡ true) × (mkdir p path f ≡ (true, f)))
            ⊎ ((is_exists p path f ≡ false)
                × (mkdir p path f ≡ make_dirs p [] (path ++ b'/' ∷ []) f)))
  unfolding mkdir
  mkdir_cases path f h = elim (Bool-cases (is_exists p path f)) [
    | inl e ↦ (ground arith, inl (e, ground arith))
    | inr e ↦ (ground arith, inr (e, ground arith))
  ]

  is_empty-ne : (path : Bytes) → is_empty path ≡ false → path ≢ []
  is_empty-ne path h e = ground arith

  mkdir_there :
      (path : Bytes) (f : p.Files)
      → (mkdir p path f).0 ≡ true
      → is_empty path ≡ false
      → (((is_exists p path f ≡ true) × (mkdir p path f ≡ (true, f)))
          ⊎ ((is_exists p path f ≡ false)
              × (mkdir p path f ≡ make_dirs p [] (path ++ b'/' ∷ []) f)))
      → is_exists p path (mkdir p path f).1 ≡ true
  mkdir_there path f h full (inl (e, same)) = rw same e
  mkdir_there path f h full (inr (e, same)) =
      rw same (make_dirs_makes [] path [] b'/' f refl (is_empty-ne path full) (rw same at h))

  mkdir_again :
      (path : Bytes) (f : p.Files)
      → is_empty path ≡ false
      → is_exists p path f ≡ true
      → mkdir p path f ≡ (true, f)
  unfolding mkdir
  mkdir_again path f full e = ground arith

  pub mkdir_makes :
      (path : Bytes) (f : p.Files)
      → (mkdir p path f).0 ≡ true
      → (is_exists p path (mkdir p path f).1 ≡ true)
        × (mkdir p path (mkdir p path f).1 ≡ (true, (mkdir p path f).1))
  mkdir_makes path f h =
      let (full, how) = mkdir_cases path f h in
      let there = mkdir_there path f h full how in
      (there, mkdir_again path (mkdir p path f).1 full there)

  parent_there :
      (a b : Bytes) (c : ℕ) (f : p.Files)
      → is_separator c ≡ true
      → a ≢ []
      → (mkdir p (a ++ c ∷ b) f).0 ≡ true
      → mkdir p (a ++ c ∷ b) f ≡ make_dirs p [] ((a ++ c ∷ b) ++ b'/' ∷ []) f
      → is_exists p a (mkdir p (a ++ c ∷ b) f).1 ≡ true
  parent_there a b c f s ne h same =
      rw (same, append_assoc a (c ∷ b) (b'/' ∷ []))
        (make_dirs_makes [] a (b ++ b'/' ∷ []) c f s ne
          (rw (same, append_assoc a (c ∷ b) (b'/' ∷ [])) at h))

  -- If `mkdir` returns true and the path was not there, then it is there, and so is each of its
  -- parents: every part of the path that ends before a separator and is not empty. A second call
  -- returns true at once and changes nothing.
  pub mkdir_parents :
      (a b : Bytes) (c : ℕ) (f : p.Files)
      → is_separator c ≡ true
      → a ≢ []
      → is_exists p (a ++ c ∷ b) f ≡ false
      → (mkdir p (a ++ c ∷ b) f).0 ≡ true
      → (is_exists p a (mkdir p (a ++ c ∷ b) f).1 ≡ true)
        × (is_exists p (a ++ c ∷ b) (mkdir p (a ++ c ∷ b) f).1 ≡ true)
        × (mkdir p (a ++ c ∷ b) (mkdir p (a ++ c ∷ b) f).1 ≡ (true, (mkdir p (a ++ c ∷ b) f).1))
  mkdir_parents a b c f s ne absent h = elim (mkdir_cases (a ++ c ∷ b) f h).1 [
    | inl (e, same) ↦ absurd (cc)
    | inr (e, same) ↦
        let (there, again) = mkdir_makes (a ++ c ∷ b) f h in
        (parent_there a b c f s ne h same, there, again)
  ]

  -- Whatever `mkdir` returns, what was there before is there after.
  pub mkdir_keeps :
      (path e : Bytes) (f : p.Files)
      → is_exists p e f ≡ true
      → is_exists p e (mkdir p path f).1 ≡ true
  unfolding mkdir
  mkdir_keeps path e f h = ground (arith, make_dirs_keeps [] (path ++ b'/' ∷ []) e f)

  round_links :
      (before : Bytes) (c : ℕ) (path : Bytes) (size : ℕ) (f : p.Files)
      → p.readlink path size (round p before c f).1 ≡ p.readlink path size f
  unfolding round ensure
  round_links before c path size f = ground (arith, laws.mkdir_links (c_str before) path size f)

  make_dirs_links :
      (before rest path : Bytes) (size : ℕ) (f : p.Files)
      → p.readlink path size (make_dirs p before rest f).1 ≡ p.readlink path size f
  unfolding make_dirs
  make_dirs_links before [] path size f = refl
  make_dirs_links before (c ∷ rest) path size f = ground (
    arith,
    round_links before c path size f,
    make_dirs_links (before ++ c ∷ []) rest path size (round p before c f).1,
  )

  pub mkdir_links :
      (d path : Bytes) (size : ℕ) (f : p.Files)
      → p.readlink path size (mkdir p d f).1 ≡ p.readlink path size f
  unfolding mkdir
  mkdir_links d path size f = ground (arith, make_dirs_links [] (d ++ b'/' ∷ []) path size f)
