-- ===== src/Bridge/Answers/Complete.antt =====
-- Which answers to a request with questions are accepted (service.py).
use server_fs_mcp.Bridge.Errors.{ok, bind, bind-eq-ok, ok-injective}
use mathlib.Core.HLevel.{⊥_prop}
use mathlib.Core.Logic.Or
use mathlib.Core.Bool.{Bool-set}
use mathlib.Core.List.{
  Mem, Mem-prop, Nodup, Nodup-cons, Nodup-nil, not-mem-nil, mem-cons_self, mem-cons_of_mem,
  eq-or-mem_of_mem-cons,
}
use server_fs_mcp.Prelude.{
  String, Option, List, none, some, [], ◌∷◌, ◌||◌, all, true, false, ◌≡◌, ◌↔◌, All, map, Bool-cases,
  inl, inr, arith, refl, sym, subst, ap,
}
use server_fs_mcp.Bridge.Answers.{
  Question, Answer, InteractionPayload, has, question_of, check_answer, known_question,
  validate_from, validate_answers,
}
use server_fs_mcp.Bridge.Answers.Exact.{IsAllowed, has-Mem, not_has, check_answer-IsAllowed}

-- one allowed answer to each question
pub record AreComplete (questions : List Question) (answers : List Answer) : Type 0 where
  pub each :
      All
        (λ a. (q : Question) × (question_of questions a.question_id ≡ some q) × IsAllowed q a)
        answers
  pub once : Nodup (map Answer.question_id answers)
  pub complete :
      (q : Question) → Mem q questions → Mem q.question_id (map Answer.question_id answers)

abbrev note : List String → List String → List String
note [] seen = seen
note (x ∷ xs) seen = note xs (x ∷ seen)

has-note : (x : String) (xs seen : List String) → has x (note xs seen) ≡ (has x xs || has x seen)
has-note x [] seen = refl
has-note x (y ∷ ys) seen = ground (arith, has-note x ys (y ∷ seen))

-- the answers that the loop goes through after some ids
record Fresh (questions : List Question) (seen : List String) (answers : List Answer) : Type 0 where
  each :
      All
        (λ a. (q : Question) × (question_of questions a.question_id ≡ some q) × IsAllowed q a)
        answers
  once : Nodup (map Answer.question_id answers)
  unseen : (i : String) → Mem i (map Answer.question_id answers) → has i seen ≡ false

known_question-ok :
    (o : Option Question) (id : String) (seen : List String) (q : Question)
    → known_question o id seen ≡ ok q
    → (o ≡ some q) × (has id seen ≡ false)
known_question-ok none id seen q h = cc h
known_question-ok (some p) id seen q h = elim (Bool-cases (has id seen)) [
  | inl e ↦ cc (rw e at h)
  | inr e ↦ (ap some (ok-injective p q (rw e at h)), e)
]

validate_from-Fresh :
    (questions : List Question) (seen : List String) (answers : List Answer) (after : List String)
    → validate_from questions seen answers ≡ ok after
    → Fresh questions seen answers × (after ≡ note (map Answer.question_id answers) seen)
unfolding validate_from
validate_from-Fresh questions seen [] after h = (
  record { each = tt; once = Nodup-nil; unseen = λ i m. absurd (not-mem-nil m) },
  sym (ok-injective seen after h),
)
validate_from-Fresh questions seen (a ∷ answers) after h =
    let (q, k, h1) =
      bind-eq-ok (known_question (question_of questions a.question_id) a.question_id seen)
        (λ question.
          bind (check_answer question a)
            λ _. validate_from questions (a.question_id ∷ seen) answers)
        after h in
    let (u, c, h2) =
      bind-eq-ok (check_answer q a) (λ _. validate_from questions (a.question_id ∷ seen) answers)
        after h1 in
    let (found, new) = known_question-ok _ a.question_id seen q k in
    let (rest, e) = validate_from-Fresh questions (a.question_id ∷ seen) answers after h2 in
    (
      record {
        each = ((q, found, (check_answer-IsAllowed q a).0 c), rest.each);
        once = Nodup-cons.1 (
          λ m.
              let k : has a.question_id (a.question_id ∷ seen) ≡ false =
                rest.unseen a.question_id m in
              (not_has a.question_id (a.question_id ∷ seen)).0 k mem-cons_self,
          rest.once,
        );
        unseen = λ i m.
            Or.elim (Bool-set _ _) (eq-or-mem_of_mem-cons m) (λ e. rw e new)
              (λ n. let k = rest.unseen i n in ground (arith, k));
      },
      e,
    )

Fresh-validate_from :
    (questions : List Question) (seen : List String) (answers : List Answer)
    → Fresh questions seen answers
    → validate_from questions seen answers ≡ ok (note (map Answer.question_id answers) seen)
unfolding validate_from
Fresh-validate_from questions seen [] f = refl
Fresh-validate_from questions seen (a ∷ answers) f =
    let (q, found, allowed) = f.each.0 in
    let new : has a.question_id seen ≡ false = f.unseen a.question_id mem-cons_self in
    let (apart, once) = Nodup-cons.0 f.once in
    rw (found, new, (check_answer-IsAllowed q a).1 allowed)
      (Fresh-validate_from questions (a.question_id ∷ seen) answers (record {
        each = f.each.1;
        once = once;
        unseen = λ i m. (not_has i (a.question_id ∷ seen)).1 (λ n.
            Or.elim ⊥_prop (eq-or-mem_of_mem-cons n)
              (λ e. apart (subst (λ z. Mem z (map Answer.question_id answers)) e m))
              (λ l. (not_has i seen).0 (f.unseen i (mem-cons_of_mem a.question_id m)) l));
      }))

-- every id of the list is noted
all_noted :
    (questions : List Question) (ids : List String)
    → (all (λ (q : Question). has q.question_id (note ids [])) questions ≡ true)
      ↔ ((q : Question) → Mem q questions → Mem q.question_id ids)
all_noted [] ids = (λ h q m. absurd (not-mem-nil m), λ h. refl)
all_noted (q ∷ qs) ids =
    let same = has-note q.question_id ids [] in
    (
      λ h p m.
          Or.elim Mem-prop (eq-or-mem_of_mem-cons m)
            (λ e.
              let here : has q.question_id ids ≡ true = ground (arith, h, same) in
              subst (λ (z : Question). Mem z.question_id ids) (sym e)
                ((has-Mem q.question_id ids).0 here))
            (λ n. (all_noted qs ids).0 (ground (arith, h)) p n),
      λ h.
          let k = (has-Mem q.question_id ids).1 (h q mem-cons_self) in
          let here : has q.question_id (note ids []) ≡ true = ground (arith, same, k) in
          let rest = (all_noted qs ids).1 (λ p m. h p (mem-cons_of_mem q m)) in
          rw (here, rest) refl,
    )

-- Answers are accepted, as they are, exactly when they are one allowed answer to each question of the
-- request: the ids of the answers are of questions and do not repeat, every question has one, the
-- options that are selected differ and are offered, more than one only where the question allows it,
-- a text only where it allows one, and there is an option or a text that is not empty.
pub validate_answers_iff :
    (payload : InteractionPayload) (questions : List Question) (answers : List Answer)
    → payload.questions ≡ some questions
    → (validate_answers payload answers ≡ ok answers) ↔ AreComplete questions answers
unfolding validate_answers
validate_answers_iff payload questions answers listed = (to, from)
  where
    to : validate_answers payload answers ≡ ok answers → AreComplete questions answers
    to h =
        let (seen, v, h1) =
          bind-eq-ok (validate_from questions [] answers) _ answers
            (rw (listed, validate_answers) at h) in
        let (fresh, e) = validate_from-Fresh questions [] answers seen v in
        elim (Bool-cases (all (λ (q : Question). has q.question_id seen) questions)) [
          | inr missing ↦ cc (rw missing at h1)
          | inl all_there ↦ record {
            each = fresh.each;
            once = fresh.once;
            complete = (all_noted questions (map Answer.question_id answers)).0 (rw e at all_there);
          }
        ]

    from : AreComplete questions answers → validate_answers payload answers ≡ ok answers
    from c =
        let v =
          Fresh-validate_from questions [] answers
            (record { each = c.each; once = c.once; unseen = λ i m. refl }) in
        rw
          (
            listed,
            v,
            (all_noted questions (map Answer.question_id answers)).1 c.complete,
            validate_answers,
          )
          refl
