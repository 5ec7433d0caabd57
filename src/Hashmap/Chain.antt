-- ===== src/Hashmap/Chain.antt =====
-- One bucket of mdv_hashmap.c: the loops over its entries, and their laws.
use medved_db.Base.{
  ℕ, zero, suc, ◌+◌, ◌≤◌, ◌<◌, ◌≡◌, refl, List, [], ◌∷◌, ◌++◌, true, Option, none, some, arith,
  ◌==◌, if◌then◌else◌, length, set,
}
use medved_db.Hashmap.Interface.{Keys}

-- The bucket at an index; there is no bucket past the end.
abbrev pub nth {ℓ} : {A : Type ℓ} → List (List A) → ℕ → List A
nth [] i = []
nth (b ∷ bs) zero = b
nth (b ∷ bs) (suc i) = nth bs i

pub nth-set {ℓ} :
    {A : Type ℓ} (bs : List (List A)) (i j : ℕ) (b : List A)
    → i < length bs
    → nth (set bs i b) j ≡ (if j == i then b else nth bs j)
nth-set [] i j b h = absurd (omega arith)
nth-set (c ∷ bs) zero zero b h = refl
nth-set (c ∷ bs) zero (suc j) b h = ground arith
nth-set (c ∷ bs) (suc i) zero b h = ground arith
nth-set (c ∷ bs) (suc i) (suc j) b h = ground (arith, nth-set bs i j b)

module _ {ℓ} {A K : Type ℓ} (ks : Keys A K) where
  open ks use {key, same, same_refl, same_symm, same_trans}

  -- The first entry with the key.
  unfoldable pub find : K → List A → Option A
  find k [] = none
  find k (x ∷ xs) = if same k (key x) then some x else find k xs

  -- The list without that entry.
  unfoldable pub remove : K → List A → List A
  remove k [] = []
  remove k (x ∷ xs) = if same k (key x) then xs else x ∷ remove k xs

  -- How many entries have the key.
  unfoldable pub count : K → List A → ℕ
  count k [] = 0
  count k (x ∷ xs) = (if same k (key x) then 1 else 0) + count k xs

  pub same_left : (a b c : K) → same a b ≡ true → same a c ≡ same b c
  same_left a b c e = ground (arith, same_trans b a c (same_symm a b e), same_trans a b c e)

  pub find-absent : (k : K) (xs : List A) → count k xs ≡ 0 → find k xs ≡ none
  unfolding find count
  find-absent k [] h = refl
  find-absent k (x ∷ xs) h = ground (arith, find-absent k xs)

  pub count-absent : (k q : K) (xs : List A) → find k xs ≡ none → same q k ≡ true → count q xs ≡ 0
  unfolding find count
  count-absent k q [] h e = refl
  count-absent k q (x ∷ xs) h e = ground (arith, count-absent k q xs, same_left q k (key x) e)

  pub find-push :
      (q : K) (xs : List A) (x : A)
      → count q xs + (if same q (key x) then 1 else 0) ≤ 1
      → find q (xs ++ x ∷ []) ≡ (if same q (key x) then some x else find q xs)
  unfolding find count
  find-push q [] x h = refl
  find-push q (y ∷ xs) x h = ground (arith, find-push q xs x)

  pub count-push :
      (q : K) (xs : List A) (x : A)
      → count q (xs ++ x ∷ []) ≡ count q xs + (if same q (key x) then 1 else 0)
  unfolding count
  count-push q [] x = omega arith
  count-push q (y ∷ xs) x = omega (arith, count-push q xs x)

  module _ (k q : K) where
    pub find-remove :
        (xs : List A)
        → count q xs ≤ 1
        → find q (remove k xs) ≡ (if same q k then none else find q xs)
    unfolding find remove count
    find-remove [] h = ground arith
    find-remove (x ∷ xs) h = ground (
      arith,
      find-remove xs,
      find-absent q xs,
      same_left q k (key x),
      same_left k q (key x),
      same_symm q k,
      same_trans k (key x) q,
      same_trans q (key x) k,
      same_symm k (key x),
      same_symm q (key x),
    )

    pub count-remove-le : (xs : List A) → count q (remove k xs) ≤ count q xs
    unfolding remove count
    count-remove-le [] = omega arith
    count-remove-le (x ∷ xs) = ground (arith, count-remove-le xs)

  pub count-remove :
      (k q : K) (xs : List A) → count q xs ≤ 1 → same q k ≡ true → count q (remove k xs) ≡ 0
  unfolding remove count
  count-remove k q [] h e = refl
  count-remove k q (x ∷ xs) h e = ground (arith, count-remove k q xs, same_left q k (key x) e)

  pub length-remove :
      (k : K) (xs : List A) (old : A) → find k xs ≡ some old → length (remove k xs) + 1 ≡ length xs
  unfolding find remove
  length-remove k [] old h = absurd (cc)
  length-remove k (x ∷ xs) old h = ground (arith, length-remove k xs old)
