-- ===== src/Bulk/Batches.antt =====
-- The batches of chats/apps/api/v1/rooms/services: the slices of `xs` from the indices in
-- `range(0, total, batch_size)`.
use chats_engine.Prelude.{
  ℕ, zero, suc, ◌+◌, ◌-◌, ◌≤◌, ◌<◌, ◌≡◌, refl, sym, ap, ◌∙◌, inl, inr, List, [], ◌∷◌, ◌++◌, map,
  arith, ltb, if◌then◌else◌, length, take, drop, Bool-cases,
}

-- `range(i, stop, step)`, of at most `fuel` numbers.
pub range : ℕ → ℕ → ℕ → ℕ → List ℕ
range zero i stop step = []
range (suc fuel) i stop step =
    let rest = range fuel (i + step) stop step in if ltb i stop then i ∷ rest else []

-- `xs[i:j]`
abbrev pub slice {ℓ} : {A : Type ℓ} → ℕ → ℕ → List A → List A
slice i j xs = take (j - i) (drop i xs)

abbrev pub concat {ℓ} : {A : Type ℓ} → List (List A) → List A
concat [] = []
concat (xs ∷ xss) = xs ++ concat xss

module _ {ℓ} {A : Type ℓ} where
  drop_nil : (n : ℕ) → let none_left : List A = [] in drop n none_left ≡ []
  drop_nil zero = refl
  drop_nil (suc n) = refl

  at_index : (xs : List A) {n m : ℕ} → n ≡ m → drop n xs ≡ drop m xs
  at_index xs e = ap (λ k. drop k xs) e

  drop-drop : (n m : ℕ) (xs : List A) → drop m (drop n xs) ≡ drop (n + m) xs
  drop-drop zero m xs = at_index xs (omega arith)
  drop-drop (suc n) m [] = drop_nil m ∙ sym (drop_nil (suc n + m))
  drop-drop (suc n) m (x ∷ xs) =
      drop-drop n m xs ∙ at_index (x ∷ xs) {n = suc (n + m)} (omega arith)

  take-drop : (n : ℕ) (xs : List A) → take n xs ++ drop n xs ≡ xs
  take-drop zero xs = refl
  take-drop (suc n) [] = refl
  take-drop (suc n) (x ∷ xs) = ap (λ t. x ∷ t) (take-drop n xs)

  drop_all : (n : ℕ) (xs : List A) → length xs ≤ n → drop n xs ≡ []
  drop_all zero [] h = refl
  drop_all zero (x ∷ xs) h = absurd (ground (arith, h))
  drop_all (suc n) [] h = refl
  drop_all (suc n) (x ∷ xs) h = drop_all n xs (omega (arith, h))

module _ {ℓ} {A : Type ℓ} (size : ℕ) (positive : 0 < size) (xs : List A) where
  concat_from :
      (fuel i : ℕ)
      → length xs ≤ fuel + i
      → concat (map (λ i. slice i (i + size) xs) (range fuel i (length xs) size)) ≡ drop i xs
  unfolding range
  concat_from zero i h = sym (drop_all i xs (omega (arith, h)))
  concat_from (suc fuel) i h = elim (Bool-cases (ltb i (length xs))) [
    | inl more ↦
        rw (more, concat_from fuel (i + size) (omega (arith, h, positive)))
          (ap (λ k. take k (drop i xs) ++ drop (i + size) xs) (omega arith)
            ∙ ap (λ t. take size (drop i xs) ++ t) (sym (drop-drop i size xs))
            ∙ take-drop size (drop i xs))
    | inr done ↦ rw done (sym (drop_all i xs (ground (arith, done))))
  ]

  -- The slices at the indices of the range are the whole list, cut.
  pub range-covers :
      concat (map (λ i. slice i (i + size) xs) (range (length xs) 0 (length xs) size)) ≡ xs
  range-covers = concat_from (length xs) 0 (omega arith)
