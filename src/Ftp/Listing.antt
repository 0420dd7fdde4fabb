-- ===== src/Ftp/Listing.antt =====
-- The text of a directory: list_directory of components/ftp/include/ftp_client_session.hpp.
use espp.Prelude.{
  same_text, ℕ, zero, suc, ◌-◌, ◌/◌, ◌%◌, ◌^◌, ◌==◌, ◌||◌, Option, none, some, List, [], ◌∷◌, ◌++◌,
  length, codes, pos, to_string, if◌then◌else◌,
}
use espp.Ftp.Machine.{FileType, directory, regular, other, FileStatus, Entry}

unfoldable pub spaces : ℕ → List ℕ
spaces zero = []
spaces (suc n) = 32 ∷ spaces n

-- `{:>n}`.
unfoldable pub right_aligned : ℕ → List ℕ → List ℕ
unfolding spaces
right_aligned n text = spaces (n - length text) ++ text

unfoldable pub type_letter : FileType → List ℕ
type_letter directory = codes "d"
type_letter regular = codes "-"
type_letter other = codes "?"

unfoldable pub permission : ℕ → ℕ → ℕ → List ℕ
permission permissions bit letter = (if permissions / 2 ^ bit % 2 == 1 then letter else 45) ∷ []

unfoldable pub size_field : FileType → ℕ → List ℕ
unfolding right_aligned
size_field regular size = right_aligned 8 (to_string (pos size)) ++ codes " "
size_field directory size = right_aligned 7 [] ++ codes "0 "
size_field other size = right_aligned 7 [] ++ codes "0 "

unfoldable pub date_field : Option (List ℕ) → List ℕ
unfolding right_aligned
date_field none = codes "Jan 01 00:00 "
date_field (some text) = right_aligned 12 text ++ codes " "

unfoldable pub entry_line : List ℕ → FileStatus → List ℕ
unfolding type_letter permission size_field date_field
entry_line name status =
    type_letter status.type
    ++ permission status.permissions 8 114
    ++ permission status.permissions 7 119
    ++ permission status.permissions 6 120
    ++ permission status.permissions 5 114
    ++ permission status.permissions 4 119
    ++ permission status.permissions 3 120
    ++ permission status.permissions 2 114
    ++ permission status.permissions 1 119
    ++ permission status.permissions 0 120
    ++ codes " 1 owner group "
    ++ size_field status.type status.file_size
    ++ date_field status.time
    ++ name
    ++ codes "\r\n"

unfoldable pub entry_text : List ℕ → Option FileStatus → List ℕ
unfolding same_text entry_line
entry_text name none = []
entry_text name (some status) =
    if same_text name (codes ".") || same_text name (codes "..") then [] else entry_line name status

unfoldable pub entry_texts : List Entry → List ℕ
unfolding entry_text
entry_texts [] = []
entry_texts (e ∷ entries) = entry_text e.name e.status ++ entry_texts entries

unfoldable pub list_directory : Option (List Entry) → List ℕ
unfolding entry_texts
list_directory none = []
list_directory (some entries) = entry_texts entries
