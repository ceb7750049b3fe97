-- ===== src/AlarmEngine/Evaluator/Replace.antt =====
-- `replace` against its specification: one pass from left to right that copies each character, and
-- writes the replacement for each occurrence of the placeholder.
use forge_sight.Prelude.{
  ℕ, zero, suc, ◌+◌, ◌-◌, ◌≤◌, ◌<◌, ◌≡◌, refl, sym, ap, ◌∙◌, true, false, none, some, Option-cases,
  [], ◌∷◌, ◌++◌, append_assoc, Text, length, take, drop, arith, inl, inr, length-append,
  length-take, length-drop,
}
use native.Mathlib.Nat.{add_assoc, suc-add}
use forge_sight.AlarmEngine.Evaluator.{replace_loop, replace}
use forge_sight.AlarmEngine.Evaluator.Search.{
  begins, after, find_index, find-append, find_index-le, find_index-suc, take-length_add-append,
  drop-length_add-append,
}

-- The first argument counts the characters of an occurrence that are still to be skipped.
unfoldable pub pass : ℕ → Text → Text → Text → Text
pass skip ph r [] = []
pass (suc skip) ph r (c ∷ s) = pass skip ph r s
pass zero ph r (c ∷ s) = elim (begins ph (c ∷ s)) [
  | true ↦ r ++ pass (length ph - 1) ph r s
  | false ↦ c ∷ pass zero ph r s
]

pass-drop : (k : ℕ) (ph r s : Text) → pass k ph r s ≡ pass 0 ph r (drop k s)
unfolding pass
pass-drop zero ph r s = refl
pass-drop (suc k) ph r [] = refl
pass-drop (suc k) ph r (c ∷ s) = pass-drop k ph r s

pass-none : (ph r s : Text) → find_index ph s ≡ none → pass 0 ph r s ≡ s
unfolding pass find_index
pass-none ph r [] h = refl
pass-none ph r (c ∷ s) h = ground (arith, pass-none ph r s)

pass-some :
    (d : ℕ) (ph r s : Text) (i : ℕ)
    → find_index (d ∷ ph) s ≡ some i
    → pass 0 (d ∷ ph) r s ≡ take i s ++ (r ++ pass 0 (d ∷ ph) r (drop (i + suc (length ph)) s))
unfolding pass find_index
pass-some d ph r [] i h = ground arith
pass-some d ph r (c ∷ s) zero h = ground (arith, pass-drop (length ph) (d ∷ ph) r s)
pass-some d ph r (c ∷ s) (suc i) h =
    let (miss, e) = find_index-suc (d ∷ ph) c s i h in
    rw (miss, pass, suc-add) (ap (◌∷◌ c) (pass-some d ph r s i e))

-- One round of the loop, from a message of which `done` has been treated.
splice_lem :
    (done rest ph r : Text) (i : ℕ)
    → take (length done + i) (done ++ rest)
        ++ (r ++ drop (length done + i + length ph) (done ++ rest))
      ≡ ((done ++ take i rest) ++ r) ++ drop (i + length ph) rest
splice_lem done rest ph r i =
    rw
      (
        take-length_add-append done rest i,
        add_assoc (length done) i (length ph),
        drop-length_add-append done rest (i + length ph),
      )
      (simp append_assoc)

length_lem :
    (done rest r : Text) (i : ℕ)
    → i ≤ length rest
    → length ((done ++ take i rest) ++ r) ≡ length done + i + length r
length_lem done rest r i h = omega (
  arith,
  length-append (done ++ take i rest) r,
  length-append done (take i rest),
  length-take i rest,
)

replace_loop-pass :
    (fuel d : ℕ) (ph r done rest : Text)
    → length rest < fuel
    → replace_loop fuel (d ∷ ph) r (done ++ rest) (length done) ≡ done ++ pass 0 (d ∷ ph) r rest
unfolding replace_loop
replace_loop-pass zero d ph r done rest h = absurd (omega arith)
replace_loop-pass (suc fuel) d ph r done rest h = elim (Option-cases (find_index (d ∷ ph) rest)) [
  | inl e ↦
      rw (find-append done rest (d ∷ ph) ∙ ap (after (length done)) e, replace_loop)
        (ap (◌++◌ done) (sym (pass-none (d ∷ ph) r rest e)))
  | inr (i, e) ↦
      rw (find-append done rest (d ∷ ph) ∙ ap (after (length done)) e, replace_loop)
        (rw (splice_lem done rest (d ∷ ph) r i) (
          rw (sym (length_lem done rest r i (omega (arith, find_index-le (d ∷ ph) rest i e)))) (
            replace_loop-pass fuel d ph r ((done ++ take i rest) ++ r)
              (drop (i + suc (length ph)) rest)
              (omega
                (arith, length-drop (i + suc (length ph)) rest, find_index-le (d ∷ ph) rest i e))
            ∙ rw (pass-some d ph r rest i e) (simp append_assoc))))
]

-- For a placeholder that is not empty the loop ends by its test, and `replace` is the pass.
pub replace-pass :
    (msg : Text) (d : ℕ) (ph r : Text) → replace msg (d ∷ ph) r ≡ pass 0 (d ∷ ph) r msg
unfolding replace
replace-pass msg d ph r = replace_loop-pass (suc (length msg)) d ph r [] msg (omega arith)
