-- ===== src/Serialization/Memory.antt =====
-- Reading a memory byte by byte after a part of it was overwritten.
use https_github_com_nightdu.Base.{
  ℕ, zero, suc, ◌+◌, ◌-◌, ◌≤◌, ◌<◌, ◌≡◌, refl, ap, sym, ◌∙◌, List, [], ◌∷◌, ◌++◌, get_elem?, take,
  drop, length, length-append, arith,
}
use https_github_com_nightdu.Serialization.Codec.{slice, splice}

module _ {A : Type 0} where
  pub length-take : (n : ℕ) (xs : List A) → n ≤ length xs → length (take n xs) ≡ n
  length-take zero xs h = refl
  length-take (suc n) [] h = absurd (omega arith)
  length-take (suc n) (x ∷ xs) h = omega (arith, length-take n xs (omega arith))

  pub length-drop : (n : ℕ) (xs : List A) → length (drop n xs) ≡ length xs - n
  length-drop zero xs = omega arith
  length-drop (suc n) [] = omega arith
  length-drop (suc n) (x ∷ xs) = omega (arith, length-drop n xs)

  get_elem?-before :
      (xs ys : List A) (i : ℕ) → i < length xs → get_elem? (xs ++ ys) i ≡ get_elem? xs i
  get_elem?-before [] ys i h = absurd (omega arith)
  get_elem?-before (x ∷ xs) ys zero h = refl
  get_elem?-before (x ∷ xs) ys (suc i) h = get_elem?-before xs ys i (omega arith)

  get_elem?-beyond :
      (xs ys : List A) (i : ℕ)
      → length xs ≤ i
      → get_elem? (xs ++ ys) i ≡ get_elem? ys (i - length xs)
  get_elem?-beyond [] ys i h = ap (get_elem? ys) (omega arith)
  get_elem?-beyond (x ∷ xs) ys zero h = absurd (omega arith)
  get_elem?-beyond (x ∷ xs) ys (suc i) h =
      get_elem?-beyond xs ys i (omega arith) ∙ ap (get_elem? ys) (omega arith)

  get_elem?-take : (n : ℕ) (xs : List A) (i : ℕ) → i < n → get_elem? (take n xs) i ≡ get_elem? xs i
  get_elem?-take zero xs i h = absurd (omega arith)
  get_elem?-take (suc n) [] i h = refl
  get_elem?-take (suc n) (x ∷ xs) zero h = refl
  get_elem?-take (suc n) (x ∷ xs) (suc i) h = get_elem?-take n xs i (omega arith)

  get_elem?-drop : (n : ℕ) (xs : List A) (i : ℕ) → get_elem? (drop n xs) i ≡ get_elem? xs (n + i)
  get_elem?-drop zero xs i = ap (get_elem? xs) (omega arith)
  get_elem?-drop (suc n) [] i = refl
  get_elem?-drop (suc n) (x ∷ xs) i =
      let e : suc n + i ≡ suc (n + i) = omega arith in
      get_elem?-drop n xs i ∙ sym (ap (get_elem? (x ∷ xs)) e)

module _ (xs : List ℕ) (at : ℕ) where
  pub length-slice : (n : ℕ) → at + n ≤ length xs → length (slice xs at n) ≡ n
  length-slice n h = length-take n (drop at xs) (omega (arith, length-drop at xs))

  pub get_elem?-slice :
      (n i : ℕ) → at ≤ i → i < at + n → get_elem? (slice xs at n) (i - at) ≡ get_elem? xs i
  get_elem?-slice n i lo hi =
      get_elem?-take n (drop at xs) (i - at) (omega arith)
      ∙ get_elem?-drop at xs (i - at)
      ∙ ap (get_elem? xs) (omega arith)

  -- A part of the memory is overwritten.
  module _ (ys : List ℕ) (h : at + length ys ≤ length xs) where
    front : length (take at xs) ≡ at
    front = length-take at xs (omega arith)

    middle : length (take at xs ++ ys) ≡ at + length ys
    middle = omega (arith, length-append {0} (take at xs) ys, front)

    pub length-splice : length (splice xs at ys) ≡ length xs
    length-splice = omega (
      arith,
      length-append {0} (take at xs ++ ys) (drop (at + length ys) xs),
      length-drop (at + length ys) xs,
      middle,
    )

    pub splice_below : (i : ℕ) → i < at → get_elem? (splice xs at ys) i ≡ get_elem? xs i
    splice_below i lo =
        get_elem?-before (take at xs ++ ys) _ i (omega (arith, middle))
        ∙ get_elem?-before (take at xs) ys i (omega (arith, front))
        ∙ get_elem?-take at xs i lo

    pub splice_within :
        (i : ℕ)
        → at ≤ i
        → i < at + length ys
        → get_elem? (splice xs at ys) i ≡ get_elem? ys (i - at)
    splice_within i lo hi =
        get_elem?-before (take at xs ++ ys) _ i (omega (arith, middle))
        ∙ get_elem?-beyond (take at xs) ys i (omega (arith, front))
        ∙ ap (λ n. get_elem? ys (i - n)) front

    pub splice_above : (i : ℕ) → at + length ys ≤ i → get_elem? (splice xs at ys) i ≡ get_elem? xs i
    splice_above i hi =
        get_elem?-beyond (take at xs ++ ys) _ i (omega (arith, middle))
        ∙ get_elem?-drop (at + length ys) xs _
        ∙ ap (get_elem? xs) (omega (arith, middle))
