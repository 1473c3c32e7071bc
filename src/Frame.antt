-- ===== src/Frame.antt =====
-- What every pallet shares: dispatch errors, the outcome of a call, the monad in which a call
-- runs over the pallet's storage, the origin checks and the storage maps.
pub mod Storage
pub mod Currency
pub mod Reservable
use Prim.Native.String.{String}
use substrate_recipes.Prelude.{ℕ, Bool, Option, none, some, if◌then◌else◌}

-- `DispatchError`, with the error enum `E` of the pallet. `foreign` is an error that a called
-- pallet returned and that is passed on with no look inside.
pub data DispatchError (E : Type 0) : Type 0 where
  bad_origin : DispatchError E
  other : String → DispatchError E
  module_error : E → DispatchError E
  foreign : ℕ → DispatchError E

-- How a call ends. A panic ends the whole block.
pub data Outcome (E A : Type 0) : Type 0 where
  ok : A → Outcome E A
  err : DispatchError E → Outcome E A
  panic : Outcome E A

-- A call over the storage `S`. What was written before an error stays written.
abbrev pub Call : Type 0 → Type 0 → Type 0 → Type 0
Call S E A = S → Outcome E A × S

-- What a pallet asks of `frame_system` about the origin of a call: `none` is `BadOrigin`.
pub record Frame (Origin : Type 0) : Type 0 where
  pub ensure_signed : Origin → Option ℕ
  pub ensure_root : Origin → Bool
  pub ensure_none : Origin → Bool

module _ {S E A : Type 0} where
  abbrev pub pure : A → Call S E A
  pure a s = (ok a, s)

  abbrev pub gets : (S → A) → Call S E A
  gets f s = (ok (f s), s)

  abbrev pub fail : DispatchError E → Call S E A
  fail e s = (err e, s)

  -- `.ok_or(e)?`
  abbrev pub ok_or : Option A → DispatchError E → Call S E A
  ok_or o e s = (elim o [ none ↦ err e | some a ↦ ok a ], s)

  -- `.expect(…)`, and a plain operator under overflow checks.
  abbrev pub expect : Option A → Call S E A
  expect o s = (elim o [ none ↦ panic | some a ↦ ok a ], s)

infixl 5 ◌>>=◌ ◌>>◌
abbrev pub ◌>>=◌ : {S E A B : Type 0} → Call S E A → (A → Call S E B) → Call S E B
◌>>=◌ m f s =
    let (r, s') = m s in elim r [ ok a ↦ f a s' | err e ↦ (err e, s') | panic ↦ (panic, s') ]

abbrev pub ◌>>◌ : {S E A B : Type 0} → Call S E A → Call S E B → Call S E B
m >> k = m >>= λ _. k

module _ {S E : Type 0} where
  abbrev pub modify : (S → S) → Call S E (Unit {0})
  modify f s = (ok tt, f s)

  -- `ensure!(c, e)`
  abbrev pub ensure : Bool → DispatchError E → Call S E (Unit {0})
  ensure c e s = (if c then ok tt else err e, s)

module _ {Origin S E : Type 0} (frame : Frame Origin) where
  abbrev pub signed : Origin → Call S E ℕ
  signed origin = ok_or (frame.ensure_signed origin) bad_origin

  abbrev pub root : Origin → Call S E (Unit {0})
  root origin = ensure (frame.ensure_root origin) bad_origin

  abbrev pub unsigned : Origin → Call S E (Unit {0})
  unsigned origin = ensure (frame.ensure_none origin) bad_origin
