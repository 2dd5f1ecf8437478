-- ===== src/Fuse/Fs/Directory/Pages.antt =====
-- The replies to successive reads of a directory (Fuse/Fs/Directory.antt).
use coding_agent_sandbox.Common.{
  ℕ, zero, suc, ◌≡◌, refl, ap, true, List, [], ◌∷◌, ◌++◌, length, drop,
}
use coding_agent_sandbox.Fuse.Fs.{Mount, DirRow}
use coding_agent_sandbox.Fuse.Fs.Directory.{add_rows}

module _ (M : Mount) where
  -- The rows that are replied at a number of successive offsets.
  unfoldable pub pages : List DirRow → ℕ → ℕ → List DirRow
  pages rows offset zero = []
  pages rows offset (suc n) = add_rows M [] (drop offset rows) ++ pages rows (suc offset) n

  module _ (fits : (row : DirRow) → M.fits [] row ≡ true) where
    pages-drop :
        (row : DirRow) (rows : List DirRow) (offset n : ℕ)
        → pages (row ∷ rows) (suc offset) n ≡ pages rows offset n
    unfolding pages
    pages-drop row rows offset zero = refl
    pages-drop row rows offset (suc n) =
        ap (◌++◌ (add_rows M [] (drop offset rows))) (pages-drop row rows (suc offset) n)

    -- If each row fits in an empty buffer, the replies at offsets 0, 1, and so on, one for each
    -- row, hold every row of the listing once and in order: a reply holds one row.
    pub pages_all : (rows : List DirRow) → pages rows 0 (length rows) ≡ rows
    unfolding pages add_rows
    pages_all [] = refl
    pages_all (row ∷ rows) = rw (fits row, pages-drop row rows 0 (length rows), pages_all rows) refl
