-- ===== src/Bridge/Answers/Exact.antt =====
-- Which answers to a question are accepted (service.py).
use server_fs_mcp.Bridge.Errors.{ok}
use mathlib.Core.Logic.Or
use mathlib.Core.Bool.{Bool-set}
use mathlib.Core.List.{
  Mem, Mem-prop, Nodup, Nodup-cons, not-mem-nil, mem-cons_self, mem-cons_of_mem, Nodup-nil,
  eq-or-mem_of_mem-cons,
}
use server_fs_mcp.Prelude.{
  String, Bool, ℕ, Option, List, none, some, [], ◌∷◌, ◌==◌, ◌&&◌, not, any, ltb, ◌≤◌, length, true,
  false, is_some, ◌≡◌, ◌↔◌, Bool-cases, inl, inr, eq_iff, arith, refl, sym, subst,
}
use server_fs_mcp.Bridge.Answers.{
  Question, Answer, has, repeats, check_answer, is_none_selected, is_empty_text,
}

-- what an answer to the question has to be
pub record IsAllowed (question : Question) (answer : Answer) : Type 0 where
  pub distinct : Nodup answer.selected_option_ids
  pub offered : (o : String) → Mem o answer.selected_option_ids → Mem o question.options
  pub single : question.multi_select ≡ false → length answer.selected_option_ids ≤ 1
  pub free : (t : String) → answer.text ≡ some t → question.allow_free_text ≡ true
  pub given :
      answer.selected_option_ids ≡ [] → (t : String) × (answer.text ≡ some t) × (t == "" ≡ false)

pub has-Mem : (x : String) (xs : List String) → (has x xs ≡ true) ↔ Mem x xs
has-Mem x [] = (λ h. cc h, λ m. absurd (not-mem-nil m))
has-Mem x (y ∷ ys) = (
  λ h. elim (Bool-cases (y == x)) [
    | inl e ↦ subst (λ z. Mem z (y ∷ ys)) ((eq_iff y x).0 e) mem-cons_self
    | inr e ↦ mem-cons_of_mem y ((has-Mem x ys).0 (rw e at h))
  ],
  λ m.
      Or.elim (Bool-set _ _) (eq-or-mem_of_mem-cons m)
        (λ e. let k : y == x ≡ true = (eq_iff y x).1 (sym e) in rw k refl)
        (λ n. let k = (has-Mem x ys).1 n in ground (arith, k)),
)

pub not_has : (x : String) (xs : List String) → (has x xs ≡ false) ↔ (¬ Mem x xs)
not_has x xs = elim (Bool-cases (has x xs)) [
  | inl e ↦ (λ h. cc (e, h), λ n. absurd (n ((has-Mem x xs).0 e)))
  | inr e ↦ (λ h m. cc (e, (has-Mem x xs).1 m), λ n. e)
]

repeats-Nodup : (xs : List String) → (repeats xs ≡ false) ↔ Nodup xs
repeats-Nodup [] = (λ h. Nodup-nil, λ d. refl)
repeats-Nodup (x ∷ xs) = (
  λ h.
      Nodup-cons.1 ((not_has x xs).0 (ground (arith, h)), (repeats-Nodup xs).0 (ground (arith, h))),
  λ d.
      let k = Nodup-cons.0 d in
      let fresh : has x xs ≡ false = (not_has x xs).1 (k.0) in
      let rest : repeats xs ≡ false = (repeats-Nodup xs).1 (k.1) in rw (fresh, rest) refl,
)

-- all of a list stand in another
pub offered_iff :
    (os xs : List String)
    → (any (λ o. not (has o xs)) os ≡ false) ↔ ((o : String) → Mem o os → Mem o xs)
offered_iff [] xs = (λ h o m. absurd (not-mem-nil m), λ h. refl)
offered_iff (x ∷ os) xs = (
  λ h o m.
      Or.elim Mem-prop (eq-or-mem_of_mem-cons m)
        (λ e.
          let k : has x xs ≡ true = ground (arith, h) in
          subst (λ z. Mem z xs) (sym e) ((has-Mem x xs).0 k))
        (λ n. (offered_iff os xs).0 (ground (arith, h)) o n),
  λ h.
      let here : has x xs ≡ true = (has-Mem x xs).1 (h x mem-cons_self) in
      let rest : any (λ o. not (has o xs)) os ≡ false =
        (offered_iff os xs).1 (λ o m. h o (mem-cons_of_mem x m)) in
      rw (here, rest) refl,
)

single_iff : (multi : Bool) (n : ℕ) → ((not multi && ltb 1 n) ≡ false) ↔ (multi ≡ false → n ≤ 1)
single_iff true n = (λ h e. cc e, λ h. refl)
single_iff false n = (λ h e. ground (arith, h), λ h. ground (arith, h refl))

free_iff :
    (text : Option String) (allowed : Bool)
    → ((is_some text && not allowed) ≡ false) ↔ ((t : String) → text ≡ some t → allowed ≡ true)
free_iff none allowed = (λ h t e. cc e, λ h. refl)
free_iff (some t) true = (λ h u e. refl, λ h. refl)
free_iff (some t) false = (λ h u e. cc h, λ h. cc (h t refl))

given_iff :
    (os : List String) (text : Option String)
    → ((is_none_selected os && is_empty_text text) ≡ false)
      ↔ (os ≡ [] → (t : String) × (text ≡ some t) × (t == "" ≡ false))
given_iff (o ∷ os) text = (λ h e. cc e, λ h. refl)
given_iff [] none = (λ h e. cc h, λ h. cc ((h refl).1))
given_iff [] (some t) = (λ h e. (t, refl, h), λ h. let (u, e, f) = h refl in cc (e, f))

pub check_answer-IsAllowed :
    (q : Question) (a : Answer) → (check_answer q a ≡ ok tt) ↔ IsAllowed q a
unfolding check_answer
check_answer-IsAllowed q a = (to, from)
  where
    to : check_answer q a ≡ ok tt → IsAllowed q a
    to h = elim (Bool-cases (repeats a.selected_option_ids)) [
      | inl e ↦ cc (rw (e, check_answer) at h)
      | inr e1 ↦ elim (Bool-cases (any (λ o. not (has o q.options)) a.selected_option_ids)) [
        | inl e ↦ cc (rw (e1, e, check_answer) at h)
        | inr e2 ↦ elim (Bool-cases (not q.multi_select && ltb 1 (length a.selected_option_ids))) [
          | inl e ↦ cc (rw (e1, e2, e, check_answer) at h)
          | inr e3 ↦ elim (Bool-cases (is_some a.text && not q.allow_free_text)) [
            | inl e ↦ cc (rw (e1, e2, e3, e, check_answer) at h)
            | inr e4 ↦
                elim (Bool-cases (is_none_selected a.selected_option_ids && is_empty_text a.text)) [
                  | inl e ↦ cc (rw (e1, e2, e3, e4, e, check_answer) at h)
                  | inr e5 ↦ record {
                    distinct = (repeats-Nodup a.selected_option_ids).0 e1;
                    offered = (offered_iff a.selected_option_ids q.options).0 e2;
                    single = (single_iff q.multi_select (length a.selected_option_ids)).0 e3;
                    free = (free_iff a.text q.allow_free_text).0 e4;
                    given = (given_iff a.selected_option_ids a.text).0 e5;
                  }
                ]
          ]
        ]
      ]
    ]

    from : IsAllowed q a → check_answer q a ≡ ok tt
    from h =
        rw
          (
            (repeats-Nodup a.selected_option_ids).1 h.distinct,
            (offered_iff a.selected_option_ids q.options).1 h.offered,
            (single_iff q.multi_select (length a.selected_option_ids)).1 h.single,
            (free_iff a.text q.allow_free_text).1 h.free,
            (given_iff a.selected_option_ids a.text).1 h.given,
            check_answer,
          )
          refl
