-- ===== src/Prelude/Calls.antt =====
-- What a call comes to: a result, an access outside of an array, or a loop that outlasts its fuel.

pub data Run {ℓ} (A : Type ℓ) : Type ℓ where
  done : A → Run A
  fault : Run A
  diverges : Run A

infixl 5 ◌>>=◌
abbrev pub ◌>>=◌ {ℓ κ} : {A : Type ℓ} {B : Type κ} → Run A → (A → Run B) → Run B
done a >>= f = f a
fault >>= f = fault
diverges >>= f = diverges
