-- ===== src/Tests/Reading.antt =====
-- Pages of a file of three lines with a byte order mark.
use server_fs_mcp.Prelude.{[], ◌∷◌, ◌≡◌, refl, arith, true, false, ◌-◌, some}
use server_fs_mcp.Reading.{
  Bytes, TextPage, ok, read_page_from_fd, drop, raw_lines, read_lines, err, line_too_large,
}
use server_fs_mcp.Reading.Pages.{IsPageOf, file_lines, page-IsPageOf}
use server_fs_mcp.Reading.Walk.{read_pages, read_pages-all}

abbrev content : Bytes
content = 239 ∷ 187 ∷ 191 ∷ 97 ∷ 10 ∷ 98 ∷ 98 ∷ 10 ∷ 99 ∷ []

abbrev page : TextPage
page = record {
  revision = "r";
  lines = (97 ∷ 10 ∷ []) ∷ (98 ∷ 98 ∷ 10 ∷ []) ∷ [];
  bytes_returned = 5;
  end_line = 2;
  has_more = true;
  has_nul = false;
  has_bom = true;
}

page_read : read_page_from_fd 1 2 100 64 "r" "r" content ≡ ok page
unfolding read_page_from_fd raw_lines read_lines
page_read = refl

line_refused : read_page_from_fd 2 2 2 64 "r" "r" content ≡ err (line_too_large 2)
unfolding read_page_from_fd raw_lines read_lines
line_refused = refl

page-IsPageOf_example : IsPageOf 1 2 100 (drop (1 - 1) (file_lines 64 content)) page
page-IsPageOf_example =
    page-IsPageOf 1 2 100 64 (omega arith) (omega arith) "r" "r" content page page_read

-- one line on each page
read_pages-all_example : read_pages 1 3 64 "r" content 4 1 ≡ some (ok (file_lines 64 content))
unfolding raw_lines
read_pages-all_example =
    read_pages-all 1 3 64 (omega arith) "r" content (omega arith, (omega arith, (omega arith, tt)))
      4 1 (omega arith) (omega arith)
