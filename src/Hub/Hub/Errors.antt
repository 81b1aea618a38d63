-- ===== src/Hub/Hub/Errors.antt =====
-- pkg/hub/hub.go: the errors that a hub keeps for its API model.
use perceptor.Prelude.{
  ℕ, zero, suc, ◌+◌, ◌-◌, ◌≤◌, ◌<◌, ◌≡◌, refl, sym, ap, subst, ◌∙◌, inl, inr, ◌⊎◌, Bool-cases, List,
  [], ◌∷◌, ◌++◌, Option, none, some, arith, length, drop, length-append, ltb,
}
use mathlib.Core.List.{append-nil, append_assoc}
use perceptor.Hub.Hub.{Error, Hub, add_error, cap_errors, record_error}

length-drop {ℓ} : {A : Type ℓ} (n : ℕ) (xs : List A) → length (drop n xs) ≡ length xs - n
length-drop zero xs = omega arith
length-drop (suc n) [] = omega arith
length-drop (suc n) (x ∷ xs) = omega (arith, length-drop n xs)

take-drop {ℓ} : {A : Type ℓ} (n : ℕ) (xs : List A) → (older : List A) × (xs ≡ older ++ drop n xs)
take-drop zero xs = ([], refl)
take-drop (suc n) [] = ([], refl)
take-drop (suc n) (x ∷ xs) = let (older, e) = take-drop n xs in (x ∷ older, ap (λ l. x ∷ l) e)

length-add_error :
    (err : Option Error) (errors : List Error) → length (add_error err errors) ≤ length errors + 1
length-add_error none errors = omega arith
length-add_error (some e) errors = omega (arith, length-append errors (e ∷ []))

pub record_error-bounded :
    (err : Option Error) (h : Hub)
    → length h.errors ≤ 1000
    → length (record_error err h).errors ≤ 1000
unfolding record_error
record_error-bounded err h b = elim (Bool-cases (ltb 1000 (length (add_error err h.errors)))) [
  | inl e ↦
      rw (e, record_error)
        (omega (arith, length-drop 500 (add_error err h.errors), length-add_error err h.errors))
  | inr e ↦ rw (e, record_error) (ground (arith, e))
]

-- One call of recordError after the other.
unfoldable pub record_errors : List (Option Error) → Hub → Hub
record_errors [] h = h
record_errors (err ∷ errs) h = record_errors errs (record_error err h)

-- The errors among what the calls get.
abbrev pub errors_of : List (Option Error) → List Error
errors_of [] = []
errors_of (none ∷ errs) = errors_of errs
errors_of (some e ∷ errs) = e ∷ errors_of errs

-- `kept` are the last ones of `all`, at most 1000, and all of them unless more than 500 are kept.
pub record IsTail (all kept : List Error) : Type 0 where
  pub older : List Error
  pub split : all ≡ older ++ kept
  pub few : length kept ≤ 1000
  pub enough : (older ≡ []) ⊎ (500 < length kept)

cap_errors-IsTail :
    (all errors older : List Error)
    → all ≡ older ++ errors
    → length errors ≤ 1001
    → (older ≡ []) ⊎ (500 < length errors)
    → IsTail all (cap_errors errors)
cap_errors-IsTail all errors older e few enough = elim (Bool-cases (ltb 1000 (length errors))) [
  | inl b ↦
      let big : 1000 < length errors = ground (arith, b) in
      let (oldest, split) = take-drop 500 errors in
      rw b (record {
        older = older ++ oldest;
        split = e ∙ ap (λ l. older ++ l) split ∙ sym (append_assoc older oldest (drop 500 errors));
        few = omega (arith, length-drop 500 errors, few);
        enough = inr (omega (arith, length-drop 500 errors, big));
      })
  | inr b ↦ rw b (record { older = older; split = e; few = ground (arith, b); enough = enough })
]

add_error-IsTail :
    (err : Option Error) (all kept : List Error)
    → IsTail all kept
    → IsTail (add_error err all) (cap_errors (add_error err kept))
add_error-IsTail none all kept t =
    cap_errors-IsTail all kept t.older t.split (omega (arith, t.few)) t.enough
add_error-IsTail (some e) all kept t =
    cap_errors-IsTail (all ++ e ∷ []) (kept ++ e ∷ []) t.older
      (ap (λ l. l ++ e ∷ []) t.split ∙ append_assoc t.older kept (e ∷ []))
      (omega (arith, length-append kept (e ∷ []), t.few))
      (elim t.enough [
        | inl n ↦ inl n
        | inr m ↦ inr (omega (arith, length-append kept (e ∷ []), m))
      ])

record_errors-IsTail :
    (errs : List (Option Error)) (past : List Error) (h : Hub)
    → IsTail past h.errors
    → IsTail (past ++ errors_of errs) (record_errors errs h).errors
unfolding record_errors record_error
record_errors-IsTail [] past h t = subst (λ l. IsTail l h.errors) (sym (append-nil past)) t
record_errors-IsTail (none ∷ errs) past h t =
    record_errors-IsTail errs past (record_error none h) (add_error-IsTail none past h.errors t)
record_errors-IsTail (some e ∷ errs) past h t =
    subst (λ l. IsTail l (record_errors errs (record_error (some e) h)).errors)
      (append_assoc past (e ∷ []) (errors_of errs))
      (record_errors-IsTail errs (past ++ e ∷ []) (record_error (some e) h)
        (add_error-IsTail (some e) past h.errors t))

-- Whatever a hub without errors records, in whatever number: it keeps the newest errors in their order,
-- at most 1000 of them; none is lost unless more than 500 are kept.
pub record_errors-newest :
    (errs : List (Option Error)) (h : Hub)
    → h.errors ≡ []
    → IsTail (errors_of errs) (record_errors errs h).errors
record_errors-newest errs h e =
    record_errors-IsTail errs [] h
      (record { older = []; split = sym e; few = rw e (omega arith); enough = inl refl })
