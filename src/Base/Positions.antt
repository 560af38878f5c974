-- ===== src/Base/Positions.antt =====
-- A list by position, with a default beyond its end, and the write of one element.
use Prim.Native.Nat.{ℕ, zero, suc, ◌<◌}
use mathlib.Core.Path.{◌≡◌, refl, ap}
use mathlib.Core.List.{List, [], ◌∷◌, ◌++◌}
use native.Mathlib.Omega.{arith}
use seata.Base.Tests.{if◌then◌else◌, ◌==◌}
use seata.Base.Lists.{length, All}

module _ {ℓ} {A : Type ℓ} where
  -- `xs[i]`
  abbrev pub nth_or : A → ℕ → List A → A
  nth_or d i [] = d
  nth_or d zero (x ∷ xs) = x
  nth_or d (suc i) (x ∷ xs) = nth_or d i xs

  -- `xs[i] = x`
  abbrev pub put_nth : ℕ → A → List A → List A
  put_nth i x [] = []
  put_nth zero x (y ∷ ys) = x ∷ ys
  put_nth (suc i) x (y ∷ ys) = y ∷ put_nth i x ys

  pub length-put_nth : (i : ℕ) (x : A) (xs : List A) → length (put_nth i x xs) ≡ length xs
  length-put_nth i x [] = refl
  length-put_nth zero x (y ∷ ys) = refl
  length-put_nth (suc i) x (y ∷ ys) = ap suc (length-put_nth i x ys)

  pub nth_or-append :
      (d : A) (i : ℕ) (xs ys : List A) → i < length xs → nth_or d i (xs ++ ys) ≡ nth_or d i xs
  nth_or-append d i [] ys h = absurd (omega (arith, h))
  nth_or-append d zero (x ∷ xs) ys h = refl
  nth_or-append d (suc i) (x ∷ xs) ys h = nth_or-append d i xs ys (omega (arith, h))

  pub nth_or-last : (d x : A) (xs : List A) → nth_or d (length xs) (xs ++ x ∷ []) ≡ x
  nth_or-last d x [] = refl
  nth_or-last d x (y ∷ ys) = nth_or-last d x ys

  pub nth_or-put_nth :
      (d : A) (i j : ℕ) (x : A) (xs : List A)
      → i < length xs
      → nth_or d i (put_nth j x xs) ≡ (if j == i then x else nth_or d i xs)
  nth_or-put_nth d i j x [] h = absurd (omega (arith, h))
  nth_or-put_nth d zero zero x (y ∷ ys) h = refl
  nth_or-put_nth d zero (suc j) x (y ∷ ys) h = ground arith
  nth_or-put_nth d (suc i) zero x (y ∷ ys) h = ground arith
  nth_or-put_nth d (suc i) (suc j) x (y ∷ ys) h = ground (arith, nth_or-put_nth d i j x ys)

  -- A property of all elements is one of the element at a position, if the default has it.
  pub All-nth_or :
      (P : A → Type 0) (d : A) (i : ℕ) (xs : List A) → P d → All P xs → P (nth_or d i xs)
  All-nth_or P d i [] p h = p
  All-nth_or P d zero (x ∷ xs) p h = h.0
  All-nth_or P d (suc i) (x ∷ xs) p h = All-nth_or P d i xs p h.1

  pub All-put_nth :
      (P : A → Type 0) (i : ℕ) (x : A) (xs : List A) → P x → All P xs → All P (put_nth i x xs)
  All-put_nth P i x [] p h = tt
  All-put_nth P zero x (y ∷ ys) p h = (p, h.1)
  All-put_nth P (suc i) x (y ∷ ys) p h = (h.0, All-put_nth P i x ys p h.1)

  -- A property of the element at a position is kept by a write that keeps it.
  pub put_nth-keeps :
      (P : A → Type 0) (d : A) (i j : ℕ) (x : A) (xs : List A)
      → i < length xs
      → P (nth_or d i xs)
      → (j ≡ i → P x)
      → P (nth_or d i (put_nth j x xs))
  put_nth-keeps P d i j x [] h p q = absurd (omega (arith, h))
  put_nth-keeps P d zero zero x (y ∷ ys) h p q = q refl
  put_nth-keeps P d zero (suc j) x (y ∷ ys) h p q = p
  put_nth-keeps P d (suc i) zero x (y ∷ ys) h p q = p
  put_nth-keeps P d (suc i) (suc j) x (y ∷ ys) h p q =
      put_nth-keeps P d i j x ys (omega (arith, h)) p (λ e. q (ap suc e))
