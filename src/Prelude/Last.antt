-- ===== src/Prelude/Last.antt =====
-- The last entries of a list: what a bounded buffer keeps of its history.
use Prim.Native.Nat.{ℕ, zero, suc, ◌+◌, ◌-◌, ◌≤◌}
use mathlib.Core.Path.{◌≡◌, refl, ap, ◌∙◌, sym}
use mathlib.Core.List.{List, [], ◌∷◌, ◌++◌}
use native.Mathlib.Omega.{arith}
use ai_routing.Prelude.Lists.{length, drop, length-append, length-drop}

module _ {ℓ} {A : Type ℓ} where
  abbrev pub last : ℕ → List A → List A
  last n xs = drop (length xs - n) xs

  pub drop-append : (k : ℕ) (xs ys : List A) → k ≤ length xs → drop k (xs ++ ys) ≡ drop k xs ++ ys
  drop-append zero xs ys h = refl
  drop-append (suc k) [] ys h = absurd (omega arith)
  drop-append (suc k) (x ∷ xs) ys h = drop-append k xs ys (omega arith)

  drop-nil : (k : ℕ) → drop {A = A} k [] ≡ []
  drop-nil zero = refl
  drop-nil (suc k) = refl

  drop-drop : (j k : ℕ) (xs : List A) → drop j (drop k xs) ≡ drop (k + j) xs
  drop-drop j zero xs = let e : j ≡ zero + j = omega arith in ap (λ i. drop i xs) e
  drop-drop j (suc k) [] = drop-nil j ∙ sym (drop-nil (suc k + j))
  drop-drop j (suc k) (x ∷ xs) =
      let e : suc (k + j) ≡ suc k + j = omega arith in
      drop-drop j k xs ∙ ap (λ i. drop i (x ∷ xs)) e

  pub length-last-le : (n : ℕ) (xs : List A) → length (last n xs) ≤ n
  length-last-le n xs = omega (arith, length-drop (length xs - n) xs)

  pub last-all : (n : ℕ) (xs : List A) → length xs ≤ n → last n xs ≡ xs
  last-all n xs h = let e : length xs - n ≡ 0 = omega arith in ap (λ i. drop i xs) e

  -- Appending to what was kept keeps the same as appending to the whole history.
  pub last-append-last : (n : ℕ) (xs ys : List A) → last n (last n xs ++ ys) ≡ last n (xs ++ ys)
  last-append-last n xs ys =
      ap (last n) (sym front)
      ∙ drop-drop (length (drop k (xs ++ ys)) - n) k (xs ++ ys)
      ∙ ap (λ i. drop i (xs ++ ys)) count
    where
      k : ℕ
      k = length xs - n

      front : drop k (xs ++ ys) ≡ drop k xs ++ ys
      front = drop-append k xs ys (omega arith)

      count : k + (length (drop k (xs ++ ys)) - n) ≡ length (xs ++ ys) - n
      count = omega (arith, length-drop k (xs ++ ys), length-append xs ys)
