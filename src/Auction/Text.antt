-- ===== src/Auction/Text.antt =====
-- The wide strings that AuctionServer.cpp handles: WCHAR arrays, wcscmp, wcscpy_s and std::wstring.
-- An array is the list of its words, with whatever stands behind the terminator; a std::wstring is
-- the list of its characters.
use new_name_auction.Prelude.{
  ℕ, zero, suc, ◌+◌, ◌*◌, Bool, true, false, List, [], ◌∷◌, ◌++◌, Option, none, some, Outcome, ok,
  fault, leb, ◌==◌, if◌then◌else◌, length, drop, le_bytes, need, ◌>>=◌, ◌||◌,
}

abbrev pub Text : Type 0
Text = List ℕ

-- en_NICKNAME_MAX_LENGTH
abbrev pub nick_name_max : ℕ
nick_name_max = 10

-- L"NULL"
abbrev pub null_name : Text
null_name = 78 ∷ 85 ∷ 76 ∷ 76 ∷ []

-- The characters before the terminator: what std::wstring takes from an array. With no terminator
-- in the array the code reads past its end.
unfoldable pub c_string : List ℕ → Option Text
c_string [] = none
c_string (zero ∷ cs) = some []
c_string (suc c ∷ cs) = elim (c_string cs) [ none ↦ none | some s ↦ some (suc c ∷ s) ]

-- `wcscmp(a, b) == 0`; `none` is a read past the end of an array.
unfoldable pub wcs_equal : List ℕ → List ℕ → Option Bool
wcs_equal [] bs = none
wcs_equal (a ∷ as') [] = none
wcs_equal (zero ∷ as') (b ∷ bs) = some (b == 0)
wcs_equal (suc a ∷ as') (b ∷ bs) = elim (suc a == b) [
  | true ↦ wcs_equal as' bs
  | false ↦ some false
]

-- A string into an array, by wcscpy_s: too long a string aborts the program.
unfoldable pub store_text : Text → List ℕ → Outcome (List ℕ)
store_text s dest =
    if leb (length s + 1) (length dest) then ok (s ++ (0 ∷ drop (length s + 1) dest)) else fault

-- `wcscpy_s(dest, src)` between arrays.
unfoldable pub wcscpy_s : List ℕ → List ℕ → Outcome (List ℕ)
wcscpy_s dest src = do s ← need (c_string src); store_text s dest

unfoldable pub is_prefix : Text → Text → Bool
is_prefix [] hay = true
is_prefix (c ∷ cs) [] = false
is_prefix (c ∷ cs) (d ∷ ds) = elim (c == d) [ true ↦ is_prefix cs ds | false ↦ false ]

-- `hay.find(needle) != npos`.
unfoldable pub occurs_in : Text → Text → Bool
occurs_in needle [] = is_prefix needle []
occurs_in needle (d ∷ ds) = is_prefix needle (d ∷ ds) || occurs_in needle ds

-- The bytes of an array, and the words that 20 received bytes make.
unfoldable pub wchar_bytes : List ℕ → List ℕ
wchar_bytes [] = []
wchar_bytes (c ∷ cs) = le_bytes 2 c ++ wchar_bytes cs

unfoldable pub wchars_of_bytes : List ℕ → List ℕ
wchars_of_bytes [] = []
wchars_of_bytes (a ∷ []) = []
wchars_of_bytes (a ∷ b ∷ bs) = (a + 256 * b) ∷ wchars_of_bytes bs
