-- ===== src/Mock.antt =====
-- A small runtime to run the pallets in: an origin is the account that signs, or none for root.
pub mod Bank
pub mod Genesis
pub mod Hash
pub mod Members
pub mod Reserve
use substrate_recipes.Prelude.{ℕ, Bool, Option, none, some, is_some, not, false}
use substrate_recipes.Frame.{Frame}

abbrev pub Origin : Type 0
Origin = Option ℕ

abbrev pub mock_frame : Frame Origin
mock_frame = record {
  ensure_signed = λ o. o;
  ensure_root = λ o. not (is_some o);
  ensure_none = λ o. false;
}
