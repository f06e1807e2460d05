-- ===== src/Reading.antt =====
-- The pages of a text file, read_page_from_fd (src/serverfs_mcp/read_page.py). A file is the list of
-- its bytes, and its revisions before and after the reading are arguments.
pub mod Loop
pub mod Pages
pub mod Walk
use server_fs_mcp.Prelude.{
  ℕ, zero, suc, ◌+◌, ◌-◌, Bool, true, false, not, ◌&&◌, Option, none, some, List, [], ◌∷◌, ◌++◌,
  length, take, any, ltb, leb, if◌then◌else◌, String, ◌==◌, nat_eq,
}

abbrev pub Bytes : Type 0
Bytes = List ℕ

pub data PageError : Type 0 where
  line_too_large : ℕ → PageError
  file_changed_during_read : PageError

pub data PageResult {ℓ} (A : Type ℓ) : Type ℓ where
  ok : A → PageResult A
  err : PageError → PageResult A

pub record TextPage : Type 0 where
  pub revision : String
  pub lines : List Bytes
  pub bytes_returned : ℕ
  pub end_line : ℕ
  pub has_more : Bool
  pub has_nul : Bool
  pub has_bom : Bool

-- the variables of the loop
pub record Progress : Type 0 where
  pub lines : List Bytes
  pub bytes_returned : ℕ
  pub end_line : ℕ
  pub has_more : Bool

-- raw[n:]
abbrev pub drop {ℓ} : {A : Type ℓ} → ℕ → List A → List A
drop zero xs = xs
drop (suc n) [] = []
drop (suc n) (x ∷ xs) = drop n xs

-- sample.startswith(b"\xef\xbb\xbf")
abbrev pub has_mark : Bytes → Bool
has_mark (a ∷ b ∷ c ∷ bs) = nat_eq a 239 && nat_eq b 187 && nat_eq c 191
has_mark bs = false

abbrev prepend : ℕ → List Bytes → List Bytes
prepend b [] = (b ∷ []) ∷ []
prepend b (l ∷ ls) = (b ∷ l) ∷ ls

-- for raw in fh: each line with its line feed
unfoldable pub raw_lines : Bytes → List Bytes
raw_lines [] = []
raw_lines (b ∷ bs) =
    let rest = raw_lines bs in if nat_eq b 10 then (b ∷ []) ∷ rest else prepend b rest

-- the line without the byte order mark
abbrev pub line_text : Bool → ℕ → Bytes → Bytes
line_text bom line_no raw = if nat_eq line_no 1 && bom then drop 3 raw else raw

module _ (bom : Bool) (start_line max_lines max_read_bytes : ℕ) where
  unfoldable pub read_lines : List Bytes → ℕ → Progress → PageResult Progress
  read_lines [] n s = ok s
  read_lines (raw ∷ raws) n s =
      let rest = read_lines raws (suc n) in
      let text = line_text bom (suc n) raw in
      if ltb (suc n) start_line
      then rest s
      else if ltb max_read_bytes (length text)
      then err (line_too_large (suc n))
      else if leb max_lines (length s.lines)
      then ok (record s { has_more = true })
      else if ltb max_read_bytes (s.bytes_returned + length text)
      then ok (record s { has_more = true })
      else rest (record {
        lines = s.lines ++ text ∷ [];
        bytes_returned = s.bytes_returned + length text;
        end_line = suc n;
        has_more = false;
      })

abbrev pub to_page : String → String → Bytes → PageResult Progress → PageResult TextPage
to_page revision after sample (err e) = err e
to_page revision after sample (ok s) =
    if not (after == revision)
    then err file_changed_during_read
    else ok (record {
      revision = revision;
      lines = s.lines;
      bytes_returned = s.bytes_returned;
      end_line = s.end_line;
      has_more = s.has_more;
      has_nul = any (λ b. nat_eq b 0) sample;
      has_bom = has_mark sample;
    })

unfoldable pub read_page_from_fd :
    (start_line max_lines max_read_bytes binary_sample : ℕ)
    → String
    → String
    → Bytes
    → PageResult TextPage
unfolding read_lines
read_page_from_fd start_line max_lines max_read_bytes binary_sample before after content =
    let sample = take binary_sample content in
    to_page before after sample (
      read_lines (has_mark sample) start_line max_lines max_read_bytes (raw_lines content) 0
        (record { lines = []; bytes_returned = 0; end_line = start_line - 1; has_more = false }))

-- `next_start_line` of the tool read_text_file
abbrev pub next_start_line : TextPage → Option ℕ
next_start_line page = if page.has_more then some (page.end_line + 1) else none
