-- ===== src/Filesystem/Search/Compare.antt =====
-- `test_strcmp` compares strings.
use drupe.Base.{
  ◌==◌, ==_iff, Bool-cases, ℕ, ◌≡◌, refl, sym, ap₂, ◌≢◌, ◌↔◌, inl, inr, true, List, [], ◌∷◌, arith,
}
use drupe.Filesystem.Dir.{c_string}
use drupe.Filesystem.Search.{difference, test_strcmp, is_zero}

-- the bytes of a string, none of which is the terminating zero
abbrev pub IsText : List ℕ → Type 0
IsText [] = Unit {0}
IsText (c ∷ cs) = (c ≢ 0) × IsText cs

pub c_string-IsText : (cs : List ℕ) → IsText (c_string cs)
c_string-IsText [] = tt
c_string-IsText (c ∷ cs) = elim (Bool-cases (c == 0)) [
  | inl end ↦ rw end tt
  | inr on ↦ rw on (ground arith, c_string-IsText cs)
]

difference-zero : (a b : ℕ) → (is_zero (difference a b) ≡ true) ↔ (a ≡ b)
difference-zero a b = (λ h. ground arith, λ e. ground arith)

-- On strings without a zero `test_strcmp` gives 0 exactly for two equal ones.
pub test_strcmp-eq :
    (a b : List ℕ) → IsText a → IsText b → (is_zero (test_strcmp a b) ≡ true) ↔ (a ≡ b)
unfolding test_strcmp
test_strcmp-eq [] [] ta tb = (λ h. refl, λ e. refl)
test_strcmp-eq [] (d ∷ ds) ta tb =
    (λ h. absurd (tb.0 (sym ((difference-zero 0 d).0 h))), λ e. absurd (cc e))
test_strcmp-eq (c ∷ cs) [] ta tb =
    (λ h. absurd (ta.0 ((difference-zero c 0).0 h)), λ e. absurd (cc e))
test_strcmp-eq (c ∷ cs) (d ∷ ds) ta tb = elim (Bool-cases (c == d)) [
  | inl same ↦
      let e : c ≡ d = (==_iff c d).0 same in
      let rest = test_strcmp-eq cs ds ta.1 tb.1 in
      rw same (λ h. ap₂ ◌∷◌ e (rest.0 h), λ e. rest.1 (cc e))
  | inr other ↦
      let ne : c ≢ d = λ e. cc (other, (==_iff c d).1 e) in
      rw other (λ h. absurd (ne ((difference-zero c d).0 h)), λ e. absurd (ne (cc e)))
]
