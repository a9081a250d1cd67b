-- ===== src/Prelude/Tables.antt =====
-- A table: its rows in order, of which a query takes the first that it finds.
use syn_antona.Prelude.{
  ℕ, leb, if◌then◌else◌, ◌≡◌, Bool, true, false, Option, none, some, List, [], ◌∷◌, ◌++◌, arith,
  any, Bool-cases, inl, inr,
}

module _ {ℓ} {A : Type ℓ} where
  abbrev pub find : (A → Bool) → List A → Option A
  find test [] = none
  find test (x ∷ xs) = elim (test x) [ true ↦ some x | false ↦ find test xs ]

  -- The row that `find` finds, changed.
  abbrev pub update_first : (A → Bool) → (A → A) → List A → List A
  update_first test f [] = []
  update_first test f (x ∷ xs) =
      let rest = update_first test f xs in elim (test x) [ true ↦ f x ∷ xs | false ↦ x ∷ rest ]

  -- Every row that passes the test, changed.
  abbrev pub update_all : (A → Bool) → (A → A) → List A → List A
  update_all test f [] = []
  update_all test f (x ∷ xs) =
      let rest = update_all test f xs in elim (test x) [ true ↦ f x ∷ rest | false ↦ x ∷ rest ]

  pub find-update_first :
      (test : A → Bool) (f : A → A) (xs : List A) {x : A}
      → ((y : A) → test (f y) ≡ test y)
      → find test xs ≡ some x
      → find test (update_first test f xs) ≡ some (f x)
  find-update_first test f [] keeps h = ground arith
  find-update_first test f (y ∷ xs) {x} keeps h =
      let rest = find-update_first test f xs {x = x} keeps in ground (arith, rest, keeps y)

  pub find-test : (test : A → Bool) (xs : List A) {x : A} → find test xs ≡ some x → test x ≡ true
  find-test test [] h = ground arith
  find-test test (y ∷ xs) {x} h = let rest = find-test test xs {x = x} in ground (arith, rest)

  -- Something is found once it stands at the end.
  pub find-append :
      (test : A → Bool) (xs : List A) (x : A)
      → test x ≡ true
      → (y : A) × (find test (xs ++ x ∷ []) ≡ some y)
  find-append test [] x h = (x, ground arith)
  find-append test (y ∷ xs) x h =
      let (z, found) = find-append test xs x h in
      elim (Bool-cases (test y)) [ inl e ↦ (y, ground arith) | inr e ↦ (z, ground arith) ]

  pub find-append_new :
      (test : A → Bool) (xs : List A) (x : A)
      → find test xs ≡ none
      → test x ≡ true
      → find test (xs ++ x ∷ []) ≡ some x
  find-append_new test [] x fresh h = ground arith
  find-append_new test (y ∷ xs) x fresh h =
      let rest = find-append_new test xs x in ground (arith, rest)

  -- A row is found and it is good.
  abbrev pub is_found : (A → Bool) → (A → Bool) → List A → Bool
  is_found test good xs = elim (find test xs) [ none ↦ false | some x ↦ good x ]

  -- A change of one row that keeps what the query looks at, and keeps a good row good.
  pub is_found-update_first :
      (test good changes : A → Bool) (f : A → A) (xs : List A)
      → ((x : A) → test (f x) ≡ test x)
      → ((x : A) → changes x ≡ true → test x ≡ true → good x ≡ true → good (f x) ≡ true)
      → is_found test good xs ≡ true
      → is_found test good (update_first changes f xs) ≡ true
  is_found-update_first test good changes f [] same keeps h = h
  is_found-update_first test good changes f (x ∷ xs) same keeps h =
      let rest = is_found-update_first test good changes f xs same keeps in
      ground (arith, rest, same x, keeps x)

  pub is_found-update_all :
      (test good changes : A → Bool) (f : A → A) (xs : List A)
      → ((x : A) → test (f x) ≡ test x)
      → ((x : A) → good x ≡ true → good (f x) ≡ true)
      → is_found test good xs ≡ true
      → is_found test good (update_all changes f xs) ≡ true
  is_found-update_all test good changes f [] same keeps h = h
  is_found-update_all test good changes f (x ∷ xs) same keeps h =
      let rest = is_found-update_all test good changes f xs same keeps in
      ground (arith, rest, same x, keeps x)

  -- What is appended is found by a query that found nothing before.
  pub is_found-append :
      (test good : A → Bool) (xs : List A) (x : A)
      → any test xs ≡ false
      → test x ≡ true
      → good x ≡ true
      → is_found test good (xs ++ x ∷ []) ≡ true
  is_found-append test good [] x fresh h g = ground arith
  is_found-append test good (y ∷ xs) x fresh h g =
      let rest = is_found-append test good xs x in ground (arith, rest)

  -- What was found stays found when a row is appended.
  pub is_found_kept :
      (test good : A → Bool) (xs : List A) (x : A)
      → is_found test good xs ≡ true
      → is_found test good (xs ++ x ∷ []) ≡ true
  is_found_kept test good [] x h = ground arith
  is_found_kept test good (y ∷ xs) x h =
      let rest = is_found_kept test good xs x in ground (arith, rest)

  -- `order_by(key)`: rows of the same key keep their order.
  abbrev pub insert_by : (A → ℕ) → A → List A → List A
  insert_by key x [] = x ∷ []
  insert_by key x (y ∷ ys) =
      let rest = insert_by key x ys in if leb (key x) (key y) then x ∷ y ∷ ys else y ∷ rest

  abbrev pub sort_by : (A → ℕ) → List A → List A
  sort_by key [] = []
  sort_by key (x ∷ xs) = insert_by key x (sort_by key xs)
