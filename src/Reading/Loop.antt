-- ===== src/Reading/Loop.antt =====
-- What the loop over the lines of a file keeps (src/serverfs_mcp/read_page.py).
use server_fs_mcp.Prelude.{
  ℕ, suc, ◌+◌, ◌≤◌, Bool, true, false, not, List, [], ◌∷◌, ◌++◌, ◌≡◌, length, arith, sym, ◌∙◌, ltb,
  refl, subst, Bool-cases, inl, inr, leb, length-append, zero,
}
use server_fs_mcp.Reading.{Bytes, Progress, line_text, ok, read_lines, drop}

abbrev pub is_empty : List Bytes → Bool
is_empty [] = true
is_empty (l ∷ ls) = false

abbrev pub total : List Bytes → ℕ
total [] = 0
total (l ∷ ls) = length l + total ls

-- the lines of a file, without its byte order mark
abbrev pub lines_from : Bool → ℕ → List Bytes → List Bytes
lines_from bom n [] = []
lines_from bom n (raw ∷ raws) = line_text bom (suc n) raw ∷ lines_from bom (suc n) raws

-- how the loop goes on from `s` to `s'` over the lines `ls`
pub record Reads (max_lines max_read_bytes : ℕ) (ls : List Bytes) (s s' : Progress) : Type 0 where
  pub taken : List Bytes
  pub rest : List Bytes
  pub splits : ls ≡ taken ++ rest
  pub lines : s'.lines ≡ s.lines ++ taken
  pub bytes : s'.bytes_returned ≡ s.bytes_returned + total taken
  pub ends : s'.end_line ≡ s.end_line + length taken
  pub more : s'.has_more ≡ not (is_empty rest)
  pub few : length s'.lines ≤ max_lines
  pub small : s'.bytes_returned ≤ max_read_bytes
  pub moves : s'.has_more ≡ true → 1 ≤ length s'.lines

-- what the loop keeps until it stops
pub record Going (max_lines max_read_bytes n : ℕ) (s : Progress) : Type 0 where
  pub open_end : s.has_more ≡ false
  pub few : length s.lines ≤ max_lines
  pub bytes : s.bytes_returned ≡ total s.lines
  pub small : s.bytes_returned ≤ max_read_bytes
  pub at_line : s.end_line ≡ n

pub ok-injective {ℓ} : {A : Type ℓ} (a b : A) → ok a ≡ ok b → a ≡ b
ok-injective a b h = cc

total-append : (xs ys : List Bytes) → total (xs ++ ys) ≡ total xs + total ys
total-append [] ys = omega arith
total-append (x ∷ xs) ys = ground (arith, total-append xs ys)

pub append-nil : (xs : List Bytes) → xs ++ [] ≡ xs
append-nil [] = refl
append-nil (x ∷ xs) = rw (append-nil xs) refl

append_assoc : (xs ys zs : List Bytes) → (xs ++ ys) ++ zs ≡ xs ++ (ys ++ zs)
append_assoc [] ys zs = refl
append_assoc (x ∷ xs) ys zs = rw (append_assoc xs ys zs) refl

module _ (bom : Bool) (start_line max_lines max_read_bytes : ℕ) (positive : 1 ≤ max_lines) where
  -- a stop after the state `s` takes no line
  stops :
      (ls : List Bytes) (n : ℕ) (s : Progress) (more : Bool)
      → Going max_lines max_read_bytes n s
      → more ≡ not (is_empty ls)
      → (more ≡ true → 1 ≤ length s.lines)
      → Reads max_lines max_read_bytes ls s (record s { has_more = more })
  stops ls n s more g e m = record {
    taken = [];
    rest = ls;
    splits = refl;
    lines = sym (append-nil s.lines);
    bytes = omega arith;
    ends = omega arith;
    more = e;
    few = g.few;
    small = g.small;
    moves = m;
  }

  takes :
      (text : Bytes) (ls : List Bytes) (n : ℕ) (s s' : Progress)
      → s.end_line ≡ n
      → Reads max_lines max_read_bytes ls
          (record {
            lines = s.lines ++ text ∷ [];
            bytes_returned = s.bytes_returned + length text;
            end_line = suc n;
            has_more = false;
          })
          s'
      → Reads max_lines max_read_bytes (text ∷ ls) s s'
  takes text ls n s s' at r = record {
    taken = text ∷ r.taken;
    rest = r.rest;
    splits = rw (r.splits) refl;
    lines = r.lines ∙ append_assoc s.lines (text ∷ []) r.taken;
    bytes = ground (arith, r.bytes);
    ends = ground (arith, r.ends);
    more = r.more;
    few = r.few;
    small = r.small;
    moves = r.moves;
  }

  nonempty :
      (ls : List Bytes) (bytes size : ℕ)
      → bytes ≡ total ls
      → size ≤ max_read_bytes
      → ltb max_read_bytes (bytes + size) ≡ true
      → 1 ≤ length ls
  nonempty [] bytes size e h over = ground arith
  nonempty (l ∷ ls) bytes size e h over = omega arith

  read_on :
      (raws : List Bytes) (n : ℕ) (s s' : Progress)
      → start_line ≤ suc n
      → Going max_lines max_read_bytes n s
      → read_lines bom start_line max_lines max_read_bytes raws n s ≡ ok s'
      → Reads max_lines max_read_bytes (lines_from bom n raws) s s'
  unfolding read_lines
  read_on [] n s s' past g h =
      let same : s ≡ s' = cc in
      subst (λ z. Reads max_lines max_read_bytes [] s z) (same)
        (stops [] n s s.has_more g g.open_end (λ more. cc (g.open_end, more)))
  read_on (raw ∷ raws) n s s' past g h =
      let text = line_text bom (suc n) raw in
      let here : ltb (suc n) start_line ≡ false = ground arith in
      elim (Bool-cases (ltb max_read_bytes (length text))) [
        | inl large ↦ cc (rw (here, large) at h)
        | inr fits ↦ elim (Bool-cases (leb max_lines (length s.lines))) [
          | inl full ↦
              subst (λ z. Reads max_lines max_read_bytes (lines_from bom n (raw ∷ raws)) s z)
                (ok-injective _ _ (rw (here, fits, full) at h))
                (stops (lines_from bom n (raw ∷ raws)) n s true g refl (λ _. ground arith))
          | inr room ↦ elim (Bool-cases (ltb max_read_bytes (s.bytes_returned + length text))) [
            | inl over ↦
                subst (λ z. Reads max_lines max_read_bytes (lines_from bom n (raw ∷ raws)) s z)
                  (ok-injective _ _ (rw (here, fits, room, over) at h))
                  (stops (lines_from bom n (raw ∷ raws)) n s true g refl (λ _.
                    nonempty s.lines s.bytes_returned (length text) g.bytes (ground arith) over))
            | inr under ↦ takes text (lines_from bom (suc n) raws) n s s' g.at_line (
                read_on raws (suc n) _ s' (omega arith)
                  (record {
                    open_end = refl;
                    few = rw (length-append s.lines (text ∷ [])) (ground arith);
                    bytes = rw (total-append s.lines (text ∷ []), g.bytes) (omega arith);
                    small = ground arith;
                    at_line = refl;
                  })
                  (rw (here, fits, room, under) at h))
          ]
        ]
      ]

  -- the lines before the first one are skipped
  pub read_from :
      (k : ℕ) (raws : List Bytes) (n : ℕ) (s s' : Progress)
      → start_line ≡ suc (k + n)
      → Going max_lines max_read_bytes (k + n) s
      → read_lines bom start_line max_lines max_read_bytes raws n s ≡ ok s'
      → Reads max_lines max_read_bytes (drop k (lines_from bom n raws)) s s'
  unfolding read_lines
  read_from zero raws n s s' at g h =
      read_on raws n s s' (omega arith)
        (subst (λ m. Going max_lines max_read_bytes m s) (omega arith) g) h
  read_from (suc k) [] n s s' at g h =
      subst (λ z. Reads max_lines max_read_bytes [] s z) (ok-injective s s' h)
        (stops [] _ s s.has_more g g.open_end (λ more. cc (g.open_end, more)))
  read_from (suc k) (raw ∷ raws) n s s' at g h =
      let before : ltb (suc n) start_line ≡ true = ground arith in
      read_from k raws (suc n) s s' (omega arith)
        (subst (λ m. Going max_lines max_read_bytes m s) (omega arith) g) (rw before at h)
