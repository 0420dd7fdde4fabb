-- ===== src/Ftp/FilePath.antt =====
-- What components/ftp/include/ftp_client_session.hpp uses of std::filesystem::path, on POSIX: a path
-- is the list of its bytes.
use espp.Prelude.{
  ℕ, ◌==◌, Bool, true, false, ◌&&◌, Option, none, some, List, [], ◌∷◌, ◌++◌, if◌then◌else◌,
}

unfoldable pub is_absolute : List ℕ → Bool
is_absolute [] = false
is_absolute (c ∷ p) = c == 47

-- Whether nothing stands behind the last separator.
unfoldable pub lacks_filename : List ℕ → Bool
lacks_filename [] = true
lacks_filename (c ∷ []) = c == 47
lacks_filename (c ∷ (d ∷ p)) = lacks_filename (d ∷ p)

-- `p / q`.
unfoldable pub join : List ℕ → List ℕ → List ℕ
join p q = if is_absolute q then q else if lacks_filename p then p ++ q else p ++ (47 ∷ q)

unfoldable pub all_separators : List ℕ → Bool
all_separators [] = true
all_separators (c ∷ p) = (c == 47) && all_separators p

-- What stands before the last separator.
unfoldable pub before_last : List ℕ → Option (List ℕ)
before_last [] = none
before_last (c ∷ p) = elim (before_last p) [
  | none ↦ if c == 47 then some [] else none
  | some q ↦ some (c ∷ q)
]

-- Without separators at the end.
unfoldable pub trim_end : List ℕ → List ℕ
trim_end [] = []
trim_end (c ∷ p) = elim (trim_end p) [ [] ↦ if c == 47 then [] else c ∷ [] | d ∷ q ↦ c ∷ (d ∷ q) ]

-- The directory of what stands before the last separator.
unfoldable pub directory : Option (List ℕ) → List ℕ
directory none = []
directory (some q) = if all_separators q then 47 ∷ [] else trim_end q

unfoldable pub parent_path : List ℕ → List ℕ
parent_path p = if all_separators p then p else directory (before_last p)
