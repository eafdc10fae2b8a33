-- ===== src/Providers/Reading.antt =====
-- internal/adapter/provider: how the packages read a decoded answer. A step that finds nothing goes on with
-- the next coin (`continue`), one that fails records an error and returns another.
use crypto_price_aggregator.Base.{
  ◌≡◌, refl, ◌⊎◌, inl, inr, Bool, true, false, String, List, [], ◌∷◌, Option, none, some, str_eq,
  if◌then◌else◌,
}
use crypto_price_aggregator.Domain.{Result, ok, err, Error, wrapped}

pub data Reading (P : Type 0) : Type 0 where
  found : P → Reading P
  skipped : Reading P
  refused : (recorded returned : Error) → Reading P

module _ {A B : Type 0} where
  infixl 5 ◌>>=◌ ◌>>◌
  unfoldable pub ◌>>=◌ : Reading A → (A → Reading B) → Reading B
  ◌>>=◌ (found a) f = f a
  ◌>>=◌ skipped f = skipped
  ◌>>=◌ (refused recorded returned) f = refused recorded returned

  abbrev pub ◌>>◌ : Reading A → Reading B → Reading B
  m >> k = m >>= λ _. k

module _ {A : Type 0} where
  unfoldable pub head_of : List A → Reading A
  head_of [] = skipped
  head_of (a ∷ rest) = found a

  -- The value, if there was no error.
  unfoldable pub or_skip : Result A → Reading A
  or_skip (ok a) = found a
  or_skip (err e) = skipped

  -- The value, or the error, as one that `text` wraps.
  unfoldable pub or_refuse : String → Result A → Reading A
  or_refuse text (ok a) = found a
  or_refuse text (err e) = refused e (wrapped text e)

  -- The value at a key of a map, if there is one.
  unfoldable pub entry : Option A → Reading A
  entry none = skipped
  entry (some a) = found a

  unfoldable pub or_else : A → Result A → A
  or_else a (ok b) = b
  or_else a (err e) = a

-- What a text that is not empty is read as, where it can be.
unfoldable pub given : {A : Type 0} → A → String → Result A → A
unfolding or_else
given a text r = if str_eq text "" then a else or_else a r

unfoldable pub skip_if : Bool → Reading (Unit {0})
skip_if true = skipped
skip_if false = found tt

unfoldable pub refuse_if : Bool → Error → Reading (Unit {0})
refuse_if true e = refused e e
refuse_if false e = found tt

-- A reading finds a `Q`, and what it refuses returns the error that it records, or wraps it.
module _ {A : Type 0} where
  abbrev pub Reads : (A → Type 0) → Reading A → Type 0
  Reads Q (found a) = Q a
  Reads Q skipped = Unit
  Reads Q (refused recorded returned) =
      (returned ≡ recorded) ⊎ ((t : String) × (returned ≡ wrapped t recorded))

  abbrev Nothing : A → Type 0
  Nothing a = Unit

  pub data IsStep : Reading A → Type 0 where
    step : {r : Reading A} → Reads Nothing r → IsStep r

  pub head_of-IsStep : (xs : List A) → IsStep (head_of xs)
  unfolding head_of
  head_of-IsStep [] = step tt
  head_of-IsStep (a ∷ rest) = step tt

  pub or_skip-IsStep : (r : Result A) → IsStep (or_skip r)
  unfolding or_skip
  or_skip-IsStep (ok a) = step tt
  or_skip-IsStep (err e) = step tt

  pub or_refuse-IsStep : (text : String) (r : Result A) → IsStep (or_refuse text r)
  unfolding or_refuse
  or_refuse-IsStep text (ok a) = step tt
  or_refuse-IsStep text (err e) = step (inr (text, refl))

  pub entry-IsStep : (o : Option A) → IsStep (entry o)
  unfolding entry
  entry-IsStep none = step tt
  entry-IsStep (some a) = step tt

pub skip_if-IsStep : (b : Bool) → IsStep (skip_if b)
unfolding skip_if
skip_if-IsStep true = step tt
skip_if-IsStep false = step tt

pub refuse_if-IsStep : (b : Bool) (e : Error) → IsStep (refuse_if b e)
unfolding refuse_if
refuse_if-IsStep true e = step (inl refl)
refuse_if-IsStep false e = step tt

module _ {A B : Type 0} where
  pub >>=-Reads :
      {m : Reading A}
      → IsStep m
      → (Q : B → Type 0) (f : A → Reading B) → ((a : A) → Reads Q (f a))
      → Reads Q (m >>= f)
  unfolding ◌>>=◌
  >>=-Reads {m = found a} (step h) Q f k = k a
  >>=-Reads {m = skipped} (step h) Q f k = tt
  >>=-Reads {m = refused r e} (step h) Q f k = h
