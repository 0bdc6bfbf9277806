-- ===== src/LinkedItems/Edit/Garbage.antt =====
-- What garbage collection leaves in a list.
use paradedb.Common.{
  ◌≡◌, refl, sym, ◌∙◌, ap, Bool, true, not, none, some, List, [], ◌∷◌, ◌↔◌, inl, inr, keep, all,
  Bool-cases, Option-cases, if◌then◌else◌,
}
use paradedb.LinkedItems.{Page, RetainItem, remove, retain_item, list, is_empty, retain, lookup_ex}
use paradedb.LinkedItems.Retain.{retained, retain_lem}
use paradedb.LinkedItems.Search.{first, found_value, lookup_ex_lem}
use paradedb.LinkedItems.Edit.{lookup, garbage_collect}

module _ {ℓ} {T : Type ℓ} where
  is_empty-list : (ps : List (Page T)) → (is_empty ps ≡ true) ↔ (list ps ≡ [])
  unfolding is_empty list
  is_empty-list [] = (λ h. refl, λ h. refl)
  is_empty-list (p ∷ ps) = by_items p.items refl (is_empty-list ps)
    where
      by_items :
          (xs : List T)
          → p.items ≡ xs
          → (is_empty ps ≡ true) ↔ (list ps ≡ [])
          → (is_empty (p ∷ ps) ≡ true) ↔ (list (p ∷ ps) ≡ [])
      by_items [] e rest = rw (e, is_empty) rest
      by_items (x ∷ xs) e rest = rw (e, is_empty) (λ h. cc, λ h. cc)

  module _ (recyclable : T → Bool) where
    abbrev answer : T → RetainItem
    answer x = if recyclable x then remove else retain_item

    keep-answer :
        (xs : List T) → keep (λ x. retained (answer x)) xs ≡ keep (λ x. not (recyclable x)) xs
    keep-answer [] = refl
    keep-answer (x ∷ xs) = elim (Bool-cases (recyclable x)) [
      | inl r ↦ rw r (keep-answer xs)
      | inr r ↦ rw r (ap (λ t. x ∷ t) (keep-answer xs))
    ]

    first-keep : (xs : List T) → first recyclable (keep (λ x. not (recyclable x)) xs) ≡ none
    first-keep [] = refl
    first-keep (x ∷ xs) = elim (Bool-cases (recyclable x)) [
      | inl r ↦ rw r (first-keep xs)
      | inr r ↦ rw r (rw r (first-keep xs))
    ]

    keep-all : (xs : List T) → (keep (λ x. not (recyclable x)) xs ≡ []) ↔ (all recyclable xs ≡ true)
    keep-all [] = (λ h. refl, λ h. refl)
    keep-all (x ∷ xs) = elim (Bool-cases (recyclable x)) [
      | inl r ↦ rw r (keep-all xs)
      | inr r ↦ rw r (λ h. cc, λ h. cc)
    ]

    lookup-none :
        (ps : List (Page T)) → first recyclable (list ps) ≡ none → lookup recyclable ps ≡ none
    unfolding lookup
    lookup-none ps h = elim (Option-cases (lookup_ex recyclable ps)) [
      | inl n ↦ rw n
      | inr s ↦
          let (r, e) = s in
          let found : found_value (some r) ≡ none =
            ap found_value (sym e) ∙ (lookup_ex_lem recyclable ps).0 ∙ h in
          cc
    ]

    -- Garbage collection leaves exactly the items that are not recyclable, in order: no recyclable
    -- item can be looked up any more, and the list is empty exactly when all were recyclable.
    pub garbage_collect_lem :
        (p : Page T) (ps : List (Page T))
        → (list (garbage_collect recyclable (p ∷ ps)).0
            ≡ keep (λ x. not (recyclable x)) (list (p ∷ ps)))
          × (lookup recyclable (garbage_collect recyclable (p ∷ ps)).0 ≡ none)
          × ((is_empty (garbage_collect recyclable (p ∷ ps)).0 ≡ true)
              ↔ (all recyclable (list (p ∷ ps)) ≡ true))
    unfolding garbage_collect
    garbage_collect_lem p ps =
        let after = (retain answer (p ∷ ps)).0 in
        let left : list after ≡ keep (λ x. not (recyclable x)) (list (p ∷ ps)) =
          (retain_lem answer p ps).0 ∙ keep-answer (list (p ∷ ps)) in
        let empties = is_empty-list after in
        let kept = keep-all (list (p ∷ ps)) in
        (
          left,
          lookup-none after (rw left (first-keep (list (p ∷ ps)))),
          (λ h. kept.0 (sym left ∙ empties.0 h), λ h. empties.1 (left ∙ kept.1 h)),
        )
