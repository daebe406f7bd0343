-- ===== src/Budget/Table.antt =====
-- The table of active reservations of app/budget_manager.py, and the sums of what it holds.
use ai_routing.Prelude.{
  ℕ, ◌≡◌, ◌≢◌, refl, true, false, some, List, [], ◌∷◌, arith, ◌==◌, if◌then◌else◌, All,
}
use ai_routing.Prelude.Int.{ℤ, pos, ◌+ℤ◌, ◌≤ℤ◌, int_laws}
use ai_routing.Budget.Types.{Reservation, find, contains, pop, insert}

-- No id stands twice in the table.
abbrev pub IsDistinct : List Reservation → Type 0
IsDistinct [] = Unit
IsDistinct (r ∷ rs) = (contains r.id rs ≡ false) × IsDistinct rs

-- The total of one amount over the table.
unfoldable pub sum_of : (Reservation → ℤ) → List Reservation → ℤ
sum_of f [] = pos 0
sum_of f (r ∷ rs) = f r +ℤ sum_of f rs

abbrev pub NonNeg : (Reservation → ℤ) → List Reservation → Type 0
NonNeg f = All (λ r. pos 0 ≤ℤ f r)

pub find-id : (id : ℕ) (r : Reservation) (rs : List Reservation) → find id rs ≡ some r → r.id ≡ id
find-id id r [] e = cc
find-id id r (x ∷ rs) e = ground (arith, find-id id r rs)

pub contains-insert :
    (j : ℕ) (r : Reservation) (rs : List Reservation)
    → contains j (insert r rs) ≡ (if j == r.id then true else contains j rs)
contains-insert j r [] = ground arith
contains-insert j r (x ∷ rs) = ground (arith, contains-insert j r rs)

pub contains-pop :
    (j id : ℕ) (rs : List Reservation)
    → IsDistinct rs
    → contains j (pop id rs) ≡ (if j == id then false else contains j rs)
contains-pop j id [] d = ground arith
contains-pop j id (x ∷ rs) d = ground (arith, contains-pop j id rs d.1, contains-pop x.id id rs d.1)

pub find-pop_ne : (j id : ℕ) (rs : List Reservation) → j ≢ id → find j (pop id rs) ≡ find j rs
find-pop_ne j id [] ne = refl
find-pop_ne j id (x ∷ rs) ne = ground (arith, find-pop_ne j id rs)

-- The entries of a list stand in a table, each under its id.
abbrev pub Held : List Reservation → List Reservation → Type 0
Held xs rs = All (λ x. find x.id rs ≡ some x) xs

pub Held-pop :
    (id : ℕ) (xs rs : List Reservation) → contains id xs ≡ false → Held xs rs → Held xs (pop id rs)
Held-pop id [] rs h k = tt
Held-pop id (x ∷ xs) rs h k = ground (arith, Held-pop id xs rs, find-pop_ne x.id id rs)

pub Held-cons :
    (r : Reservation) (xs rs : List Reservation)
    → contains r.id xs ≡ false
    → Held xs rs
    → Held xs (r ∷ rs)
Held-cons r [] rs h k = tt
Held-cons r (x ∷ xs) rs h k = ground (arith, Held-cons r xs rs)

-- A table holds its own entries.
pub Held-self : (rs : List Reservation) → IsDistinct rs → Held rs rs
Held-self [] d = tt
Held-self (r ∷ rs) d = (ground arith, Held-cons r rs rs d.0 (Held-self rs d.1))

pub insert-IsDistinct :
    (r : Reservation) (rs : List Reservation) → IsDistinct rs → IsDistinct (insert r rs)
insert-IsDistinct r [] d = (refl, tt)
insert-IsDistinct r (x ∷ rs) d =
    ground (arith, insert-IsDistinct r rs d.1, contains-insert x.id r rs)

pub pop-IsDistinct : (id : ℕ) (rs : List Reservation) → IsDistinct rs → IsDistinct (pop id rs)
pop-IsDistinct id [] d = tt
pop-IsDistinct id (x ∷ rs) d = ground (arith, pop-IsDistinct id rs d.1, contains-pop x.id id rs d.1)

module _ (f : Reservation → ℤ) where
  pub sum_of-insert :
      (r : Reservation) (rs : List Reservation)
      → contains r.id rs ≡ false
      → sum_of f (insert r rs) ≡ sum_of f rs +ℤ f r
  unfolding sum_of
  sum_of-insert r [] h = omega int_laws
  sum_of-insert r (x ∷ rs) h = grind (int_laws, sum_of-insert r rs)

  pub sum_of-pop :
      (id : ℕ) (r : Reservation) (rs : List Reservation)
      → find id rs ≡ some r
      → sum_of f (pop id rs) +ℤ f r ≡ sum_of f rs
  unfolding sum_of
  sum_of-pop id r [] e = cc
  sum_of-pop id r (x ∷ rs) e = grind (int_laws, sum_of-pop id r rs)

  pub insert-NonNeg :
      (r : Reservation) (rs : List Reservation)
      → pos 0 ≤ℤ f r
      → NonNeg f rs
      → NonNeg f (insert r rs)
  insert-NonNeg r [] h n = (h, tt)
  insert-NonNeg r (x ∷ rs) h n = ground (arith, insert-NonNeg r rs h n.1)

  pub pop-NonNeg : (id : ℕ) (rs : List Reservation) → NonNeg f rs → NonNeg f (pop id rs)
  pop-NonNeg id [] n = tt
  pop-NonNeg id (x ∷ rs) n = ground (arith, pop-NonNeg id rs n.1)

  pub find-NonNeg :
      (id : ℕ) (r : Reservation) (rs : List Reservation)
      → find id rs ≡ some r
      → NonNeg f rs
      → pos 0 ≤ℤ f r
  find-NonNeg id r [] e n = absurd (cc)
  find-NonNeg id r (x ∷ rs) e n = ground (arith, find-NonNeg id r rs)

  pub sum_of_nonneg : (rs : List Reservation) → NonNeg f rs → pos 0 ≤ℤ sum_of f rs
  unfolding sum_of
  sum_of_nonneg [] n = omega arith
  sum_of_nonneg (x ∷ rs) n = omega (int_laws, sum_of_nonneg rs n.1)
