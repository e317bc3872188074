-- ===== src/Effects.antt =====
-- How a call of the program ends, and calls in turn on a state. A call returns, leaves by an
-- exception, or waits for ever.
use httpserver_demo.Prelude.{Option, none, some, List, [], ◌∷◌, ◌≡◌, ap}

pub data Outcome {ℓ} (A : Type ℓ) : Type ℓ where
  returned : A → Outcome A
  threw : Outcome A
  blocked : Outcome A

abbrev pub Run : Type 0 → Type 0 → Type 0
Run S A = S → Outcome A × S

abbrev pub ret : {S A : Type 0} → A → Run S A
ret a s = (returned a, s)

abbrev pub raise : {S A : Type 0} → Run S A
raise s = (threw, s)

abbrev pub continue : {S A B : Type 0} → (A → Run S B) → Outcome A × S → Outcome B × S
continue f (returned a, s) = f a s
continue f (threw, s) = (threw, s)
continue f (blocked, s) = (blocked, s)

infixl 5 ◌>>=◌ ◌>>◌
abbrev pub ◌>>=◌ : {S A B : Type 0} → Run S A → (A → Run S B) → Run S B
◌>>=◌ m f s = continue f (m s)

abbrev pub ◌>>◌ : {S A B : Type 0} → Run S A → Run S B → Run S B
m >> k = m >>= λ _. k

-- The value of an expression that may throw.
abbrev pub or_throw : {S A : Type 0} → Option A → Run S A
or_throw none s = (threw, s)
or_throw (some a) s = (returned a, s)

-- A loop that makes one call for each item.
unfoldable pub for_each : {S A : Type 0} → (A → Run S (Unit {0})) → List A → Run S (Unit {0})
for_each f [] = ret tt
for_each f (a ∷ more) = do f a; for_each f more

-- A call that returns, and the rest behind it.
pub then_ends :
    {W A B : Type 0} (m : W → Outcome A × W) (f : A → W → Outcome B × W) (w : W) (a : A)
    → (m w).0 ≡ returned a
    → (m >>= f) w ≡ f a (m w).1
then_ends m f w a e = ap (λ o. continue f (o, (m w).1)) e
