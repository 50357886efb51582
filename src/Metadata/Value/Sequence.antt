-- ===== src/Metadata/Value/Sequence.antt =====
-- `parse_sequence` of src/metadata/value.rs at a brace that closes nothing.
use open_sdbl.Prelude.{ℕ, zero, suc, ◌≡◌, refl, Bool, List, [], ◌∷◌, ◌++◌}
use open_sdbl.Prelude.Result.{stuck}
use open_sdbl.Metadata.Value.Data.{Value}
use open_sdbl.Metadata.Value.Parse.{Parser, skip_from, parse_value, sequence_from}

abbrev at_closing_brace : List ℕ → ℕ → Bool → Parser
at_closing_brace rest offset identity_only = record {
  rest = b'}' ∷ rest;
  offset = offset;
  identity_only = identity_only;
}

-- The loop of `parse_sequence` never ends when it reaches a closing brace between two records: with
-- any number of rounds and any records read so far it is still running.
pub sequence_from-closing_brace :
    (fuel : ℕ) (values : List Value) (rest : List ℕ) (offset : ℕ) (identity_only : Bool)
    → sequence_from fuel values (at_closing_brace rest offset identity_only) ≡ stuck
unfolding sequence_from skip_from parse_value
sequence_from-closing_brace zero values rest offset identity_only = refl
sequence_from-closing_brace (suc fuel) values rest offset identity_only =
    sequence_from-closing_brace fuel (values ++ Value.null ∷ []) rest offset identity_only
