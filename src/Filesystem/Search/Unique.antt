-- ===== src/Filesystem/Search/Unique.antt =====
-- There is at most one first match.
use drupe.Base.{ℕ, ◌≡◌, sym, subst, ◌∙◌, ◌≢◌, ◌⊎◌, inl, inr, List, [], ◌∷◌}
use drupe.Filesystem.Dir.Listing.{Entry}
use drupe.Filesystem.Search.Match.{FirstMatch, matched, missing}

-- what the first entry has to do with it
FirstMatch-cons :
    (target : List ℕ) (e : Entry) (es : List Entry) (inode : ℕ)
    → FirstMatch target (e ∷ es) inode
    → ((e.inode ≢ 0) × (e.name ≡ target) × (inode ≡ e.inode))
      ⊎ (((e.inode ≡ 0) ⊎ (e.name ≢ target)) × FirstMatch target es inode)
FirstMatch-cons target e es inode (matched [] after f split none_before used named i) =
    let same : e ≡ f = cc split in
    inl (
      subst (λ (x : Entry). (x.inode ≢ 0) × (x.name ≡ target) × (inode ≡ x.inode)) (sym same)
        (used, named, i))
FirstMatch-cons target e es inode (matched (b ∷ before) after f split none_before used named i) =
    let same : e ≡ b = cc split in
    inr (
      subst (λ (x : Entry). (x.inode ≡ 0) ⊎ (x.name ≢ target)) (sym same) none_before.0,
      matched before after f (cc split) none_before.1 used named i,
    )
FirstMatch-cons target e es inode (missing none_there i) =
    inr (none_there.0, missing none_there.1 i)

FirstMatch-nil : (target : List ℕ) (inode : ℕ) → FirstMatch target [] inode → inode ≡ 0
FirstMatch-nil target inode (matched [] after f split none_before used named i) = absurd (cc split)
FirstMatch-nil target inode (matched (b ∷ before) after f split none_before used named i) =
    absurd (cc split)
FirstMatch-nil target inode (missing none_there i) = i

not_both :
    {target : List ℕ} (e : Entry) {i : ℕ}
    → (e.inode ≢ 0) × (e.name ≡ target) × (i ≡ e.inode)
    → (e.inode ≡ 0) ⊎ (e.name ≢ target)
    → ⊥
not_both e a (inl unused) = a.0 unused
not_both e a (inr other) = other a.1

-- There is one first match.
pub FirstMatch-unique :
    (target : List ℕ) (es : List Entry) (i j : ℕ)
    → FirstMatch target es i
    → FirstMatch target es j
    → i ≡ j
FirstMatch-unique target [] i j f g = FirstMatch-nil target i f ∙ sym (FirstMatch-nil target j g)
FirstMatch-unique target (e ∷ es) i j f g = elim (FirstMatch-cons target e es i f) [
  | inl a ↦ elim (FirstMatch-cons target e es j g) [
    | inl b ↦ a.2 ∙ sym b.2
    | inr b ↦ absurd (not_both e a b.0)
  ]
  | inr a ↦ elim (FirstMatch-cons target e es j g) [
    | inl b ↦ absurd (not_both e b a.0)
    | inr b ↦ FirstMatch-unique target es i j a.1 b.1
  ]
]
