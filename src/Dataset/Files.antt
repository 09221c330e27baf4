-- ===== src/Dataset/Files.antt =====
-- The files that datasets are made of (src/robolineage_dataset/updater.py, lock_writer.py), in one
-- store: a manifest, a lock or a text, each by its path.
use robolineage.Prelude.{
  String, ◌≡◌, refl, sym, ap, ◌∙◌, inl, inr, Bool-cases, Bool, true, false, ◌&&◌, Option, none,
  some, List, [], ◌∷◌, arith, str_eq, eq_iff, if◌then◌else◌,
}
use robolineage.Dataset.Lock.{Entry, DatasetLock}

pub data Content : Type 0 where
  rows_file : List Entry → Content
  lock_file : DatasetLock → Content
  text_file : String → Content

-- The parts of a folder's path, the innermost first: `out / "v1"` is "v1" ∷ out.
abbrev pub Folder : Type 0
Folder = List String

abbrev pub FilePath : Type 0
FilePath = Folder × String

abbrev pub Files : Type 0
Files = List (FilePath × Content)

unfoldable pub same_folder : Folder → Folder → Bool
same_folder [] [] = true
same_folder (s ∷ k) (t ∷ l) = str_eq s t && same_folder k l
same_folder _ _ = false

abbrev pub same_file : FilePath → FilePath → Bool
same_file p q = str_eq p.1 q.1 && same_folder p.0 q.0

unfoldable pub read_file : FilePath → Files → Option Content
unfolding same_folder
read_file p [] = none
read_file p ((q, c) ∷ f) = if same_file q p then some c else read_file p f

unfoldable pub write_file : FilePath → Content → Files → Files
unfolding same_folder
write_file p c [] = (p, c) ∷ []
write_file p c ((q, d) ∷ f) =
    let rest = write_file p c f in if same_file q p then (q, c) ∷ f else (q, d) ∷ rest

same_folder_refl : (k : Folder) → same_folder k k ≡ true
unfolding same_folder
same_folder_refl [] = refl
same_folder_refl (s ∷ k) = ground (arith, eq_iff s s, same_folder_refl k)

same_folder-eq : (k l : Folder) → same_folder k l ≡ true → k ≡ l
unfolding same_folder
same_folder-eq [] [] h = refl
same_folder-eq [] (t ∷ l) h = absurd (cc h)
same_folder-eq (s ∷ k) [] h = absurd (cc h)
same_folder-eq (s ∷ k) (t ∷ l) h = ground (arith, eq_iff s t, same_folder-eq k l)

same_file_refl : (p : FilePath) → same_file p p ≡ true
same_file_refl p = ground (arith, eq_iff p.1 p.1, same_folder_refl p.0)

same_file-eq : (p q : FilePath) → same_file p q ≡ true → p ≡ q
same_file-eq (k, s) (l, t) h = ground (arith, eq_iff s t, same_folder-eq k l)

again :
    (b : Bool) (c d o : Option Content)
    → (if b then c else o) ≡ (if b then c else (if b then d else o))
again true c d o = refl
again false c d o = refl

elsewhere :
    (r p q : FilePath) (d c o : Option Content)
    → same_file r p ≡ false
    → (if same_file r q then d else (if same_file p q then c else o))
      ≡ (if same_file p q then c else (if same_file r q then d else o))
elsewhere r p q d c o h = elim (Bool-cases (same_file p q)) [
  | inl same ↦
      let other = sym (ap (same_file r) (same_file-eq p q same)) ∙ h in rw (same, other) refl
  | inr differs ↦ rw differs refl
]

clash : (d : Content) → some d ≡ none → ⊥
clash d h = absurd (cc h)

pub read-write :
    (p q : FilePath) (c : Content) (f : Files)
    → read_file q (write_file p c f) ≡ (if same_file p q then some c else read_file q f)
unfolding read_file write_file
read-write p q c [] = refl
read-write p q c ((r, d) ∷ f) = elim (Bool-cases (same_file r p)) [
  | inl here ↦
      let same = same_file-eq r p here in
      rw (here, same) (again (same_file p q) (some c) (some d) (read_file q f))
  | inr there ↦
      rw (there, read-write p q c f) (elsewhere r p q (some d) (some c) (read_file q f) there)
]

pub read_written :
    (p : FilePath) (c : Content) (f : Files) → read_file p (write_file p c f) ≡ some c
read_written p c f = read-write p p c f ∙ rw (same_file_refl p) refl

-- A file of another name is not touched.
pub read_other :
    (k l : Folder) (s t : String) (c : Content) (f : Files)
    → str_eq s t ≡ false
    → read_file (l, t) (write_file (k, s) c f) ≡ read_file (l, t) f
read_other k l s t c f h = read-write (k, s) (l, t) c f ∙ rw h refl

-- Nor is one that is there, where a file is written that is not.
pub read_kept :
    (p q : FilePath) (c d : Content) (f : Files)
    → read_file q f ≡ some d
    → read_file p f ≡ none
    → read_file q (write_file p c f) ≡ some d
read_kept p q c d f there free = elim (Bool-cases (same_file p q)) [
  | inl same ↦
      let at = ap (λ r. read_file r f) (same_file-eq p q same) in
      absurd (clash d (sym there ∙ sym at ∙ free))
  | inr other ↦ read-write p q c f ∙ rw other there
]
