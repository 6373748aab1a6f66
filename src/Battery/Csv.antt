-- ===== src/Battery/Csv.antt =====
-- csv.reader, as battery_utils.py calls it.
use ftc_designosaurs.Base.{ℕ, List, [], ◌∷◌, ◌++◌, ◌==◌, comparable_nat, if◌then◌else◌}
use ftc_designosaurs.Flags.Chars.{Text}

-- Where the reader is: at the start of a record or of a field, in a field, in a quoted field, or
-- behind a quote in one.
pub data Place : Type 0 where
  start_record start_field in_field in_quoted quote_in_quoted : Place

pub record Reader : Type 0 where
  pub place : Place
  pub field : Text
  pub fields : List Text

abbrev pub new_reader : Reader
new_reader = record { place = start_record; field = []; fields = [] }

abbrev add_char : ℕ → Place → Reader → Reader
add_char c place r = record r { place = place; field = r.field ++ c ∷ [] }

abbrev save_field : Place → Reader → Reader
save_field place r = record { place = place; field = []; fields = r.fields ++ r.field ∷ [] }

abbrev begin_field : ℕ → Reader → Reader
begin_field c r =
    if c == 34
    then record r { place = in_quoted }
    else if c == 44
    then save_field start_field r
    else add_char c in_field r

unfoldable pub read_char : ℕ → Place → Reader → Reader
read_char c start_record r = begin_field c r
read_char c start_field r = begin_field c r
read_char c in_field r = if c == 44 then save_field start_field r else add_char c in_field r
read_char c in_quoted r =
    if c == 34 then record r { place = quote_in_quoted } else add_char c in_quoted r
read_char c quote_in_quoted r =
    if c == 34
    then add_char c in_quoted r
    else if c == 44
    then save_field start_field r
    else add_char c in_field r

unfoldable pub read_line : Text → Reader → Reader
read_line [] r = r
read_line (c ∷ cs) r = read_line cs (read_char c r.place r)

abbrev finish_line : Place → Reader → (Reader → List (List Text)) → List (List Text)
finish_line in_quoted r rest = rest r
finish_line start_record r rest = r.fields ∷ rest new_reader
finish_line start_field r rest = (save_field start_record r).fields ∷ rest new_reader
finish_line in_field r rest = (save_field start_record r).fields ∷ rest new_reader
finish_line quote_in_quoted r rest = (save_field start_record r).fields ∷ rest new_reader

abbrev finish_rows : Place → Reader → List (List Text)
finish_rows in_quoted r = (save_field start_record r).fields ∷ []
finish_rows place r = []

-- The rows; a quoted field goes on in the next line.
unfoldable pub rows_from : Reader → List Text → List (List Text)
rows_from r [] = finish_rows r.place r
rows_from r (line ∷ lines) =
    let after = read_line line r in
    let rest : Reader → List (List Text) = λ next. rows_from next lines in
    finish_line after.place after rest

abbrev pub csv_reader : List Text → List (List Text)
csv_reader lines = rows_from new_reader lines
