-- ===== src/Base/Effects.antt =====
-- `async fn … -> anyhow::Result<A>` over a state: the state comes back beside an error too, since
-- what was written before the error stays written.
use mathlib.Core.Path.{◌≡◌, refl}
use mathlib.Core.Logic.{◌⊎◌, inl, inr}
use seata.Base.Strings.{Text}

-- `anyhow::Result`; an error is its message, `e.to_string()`.
pub data Result {ℓ} (A : Type ℓ) : Type ℓ where
  ok : A → Result A
  err : Text → Result A

abbrev pub Io : Type 0 → Type 0 → Type 0
Io S A = S → Result A × S

module _ {S A : Type 0} where
  abbrev pub pure : A → Io S A
  pure a s = (ok a, s)

  abbrev pub raise : Text → Io S A
  raise e s = (err e, s)

  -- A pure function that may fail.
  abbrev pub lift : Result A → Io S A
  lift r s = (r, s)

  abbrev pub gets : (S → A) → Io S A
  gets f s = (ok (f s), s)

module _ {S A B : Type 0} where
  abbrev pub continue : Result A → (A → Io S B) → Io S B
  continue (ok a) f s = f a s
  continue (err e) f s = (err e, s)

  infixl 5 ◌>>=◌ ◌>>◌
  -- `m.await?` and the rest
  abbrev pub ◌>>=◌ : Io S A → (A → Io S B) → Io S B
  ◌>>=◌ m f s = let (r, s') = m s in continue r f s'

  abbrev pub ◌>>◌ : Io S A → Io S B → Io S B
  m >> k = m >>= λ _. k

abbrev pub modify : {S : Type 0} → (S → S) → Io S (Unit {0})
modify f s = (ok tt, f s)

pub Result-cases {ℓ} :
    {A : Type ℓ} (r : Result A) → ((a : A) × (r ≡ ok a)) ⊎ ((e : Text) × (r ≡ err e))
Result-cases (ok a) = inl (a, refl)
Result-cases (err e) = inr (e, refl)

module _ {S A B : Type 0} where
  continue_ok :
      (r : Result A) (f : A → Io S B) (s : S) (b : B)
      → (continue r f s).0 ≡ ok b
      → (a : A) × (r ≡ ok a) × (continue r f s ≡ f a s)
  continue_ok (ok a) f s b h = (a, refl, refl)
  continue_ok (err e) f s b h = cc

  -- A block that returns has passed its first step.
  pub bind_ok :
      (m : Io S A) (f : A → Io S B) (s : S) (b : B)
      → ((m >>= f) s).0 ≡ ok b
      → (a : A) × ((m s).0 ≡ ok a) × ((m >>= f) s ≡ f a (m s).1)
  bind_ok m f s b h = continue_ok (m s).0 f (m s).1 b h

  -- A step that returns hands its result and its state on.
  pub bind_step :
      (m : Io S A) (f : A → Io S B) (s : S) (a : A) → (m s).0 ≡ ok a → (m >>= f) s ≡ f a (m s).1
  bind_step m f s a h = rw h

  -- A step that fails ends the block.
  pub bind_err :
      (m : Io S A) (f : A → Io S B) (s : S) (e : Text)
      → (m s).0 ≡ err e
      → (m >>= f) s ≡ (err e, (m s).1)
  bind_err m f s e h = rw h

  -- A result that is only replaced leaves the state alone.
  pub then_pure : (m : Io S A) (b : B) (s : S) → ((m >> pure b) s).1 ≡ (m s).1
  then_pure m b s = elim (Result-cases (m s).0) [
    | inl (a, e) ↦ rw (bind_step m (λ _. pure b) s a e)
    | inr (x, e) ↦ rw (bind_err m (λ _. pure b) s x e)
  ]

  continue_all :
      (r : Result A) (f : A → Io S B) (s : S) (P : Result B × S → Type 0)
      → ((e : Text) → r ≡ err e → P (err e, s))
      → ((a : A) → r ≡ ok a → P (f a s))
      → P (continue r f s)
  continue_all (ok a) f s P failed went_on = went_on a refl
  continue_all (err e) f s P failed went_on = failed e refl

  -- What holds where the first step of a block fails, and where the rest ends, holds at its end.
  pub bind_all :
      (m : Io S A) (f : A → Io S B) (s : S) (P : Result B × S → Type 0)
      → ((e : Text) → (m s).0 ≡ err e → P (err e, (m s).1))
      → ((a : A) → (m s).0 ≡ ok a → P (f a (m s).1))
      → P ((m >>= f) s)
  bind_all m f s P failed went_on = continue_all (m s).0 f (m s).1 P failed went_on
