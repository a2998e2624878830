-- ===== src/Exec.antt =====
-- Methods that mutate an object and may raise an exception. What was changed before the raise stays
-- changed, so the state comes back beside the exception too.
use endweave.Prelude.{ℕ, zero, suc, List, [], ◌∷◌}

-- The exceptions that the program and the parts of Python that it calls raise. `diverges` is no
-- Python exception: a loop of the model ran out of fuel.
pub data Exception : Type 0 where
  index_error struct_error value_error key_error runtime_error assertion_error : Exception
  unicode_decode_error unicode_encode_error diverges : Exception

pub data Result {ℓ} (A : Type ℓ) : Type ℓ where
  ok : A → Result A
  raised : Exception → Result A

abbrev pub Exec {ℓ} : Type ℓ → Type ℓ → Type ℓ
Exec S A = S → Result A × S

module _ {ℓ} {S A : Type ℓ} where
  abbrev pub pure : A → Exec S A
  pure a s = (ok a, s)

  abbrev pub raise : Exception → Exec S A
  raise e s = (raised e, s)

module _ {ℓ} {S A B : Type ℓ} where
  abbrev pub and_then : Result A → (A → Exec S B) → Exec S B
  and_then (ok a) f s = f a s
  and_then (raised e) f s = (raised e, s)

  infixl 5 ◌>>=◌
  abbrev pub ◌>>=◌ : Exec S A → (A → Exec S B) → Exec S B
  ◌>>=◌ m f s = and_then (m s).0 f (m s).1

infixl 5 ◌>>◌
abbrev pub ◌>>◌ : {S B : Type 0} → Exec S (Unit {0}) → Exec S B → Exec S B
m >> n = m >>= λ _. n

-- `[m() for _ in range(count)]`: stops at the first exception.
unfoldable pub repeat : {S A : Type 0} → ℕ → Exec S A → Exec S (List A)
repeat zero m = pure []
repeat (suc n) m = do x ← m; xs ← repeat n m; pure (x ∷ xs)

-- `for x in xs: f(x)`
unfoldable pub for_each : {S A : Type 0} → List A → (A → Exec S (Unit {0})) → Exec S (Unit {0})
for_each [] f = pure tt
for_each (x ∷ xs) f = do f x; for_each xs f
