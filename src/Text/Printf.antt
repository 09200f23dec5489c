-- ===== src/Text/Printf.antt =====
-- What a format of the C library prints. The theorems state the texts of the program with it, as the
-- literals of the source and their arguments; each argument is already printed as its conversion says.
use concurrent_server.Base.{Bool, true, false, List, [], ◌∷◌, ◌++◌, ◌==◌}
use concurrent_server.Text.{Bytes}

-- The flag says whether the text is within a conversion, behind its '%'. The conversions are `%s`,
-- `%d` and `%ld`.
unfoldable pub print_from : Bool → List Bytes → Bytes → Bytes
print_from on args [] = []
print_from false args (c ∷ format) = elim (c == b'%') [
  | true ↦ print_from true args format
  | false ↦ c ∷ print_from false args format
]
print_from true [] (c ∷ format) = elim (c == b'l') [
  | true ↦ print_from true [] format
  | false ↦ print_from false [] format
]
print_from true (a ∷ args) (c ∷ format) = elim (c == b'l') [
  | true ↦ print_from true (a ∷ args) format
  | false ↦ a ++ print_from false args format
]

abbrev pub printf : Bytes → List Bytes → Bytes
printf format args = print_from false args format
