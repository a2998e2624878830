-- ===== src/Codec/Gameplay.antt =====
-- codec/types/gameplay.py: game rules and experiments.
pub mod RoundTrip
use endweave.Prelude.{ℕ, Bool, List, ℤ, pos, pos_part, eqb_ℤ, length, if◌then◌else◌}
use endweave.Exec.{pure, raise, value_error, ◌>>=◌, ◌>>◌, repeat, for_each}
use endweave.Codec.Reader.{Read}
use endweave.Codec.Writer.{Write}
use endweave.Codec.FieldType.{
  FieldType, bool, float_le, int_le, string, uint_le, uvar_int, var_int, array_type,
}

-- A value carries the type that it is read as: a constructor for each row of `_RULE_VALUE_TYPES`.
pub data RuleValue : Type 0 where
  bool_rule : Bool → RuleValue
  int_rule : ℤ → RuleValue
  float_rule : ℕ → RuleValue

-- `type_id`
abbrev pub rule_type : RuleValue → ℕ
rule_type (bool_rule v) = 1
rule_type (int_rule v) = 2
rule_type (float_rule v) = 3

pub record GameRule : Type 0 where
  pub name : List ℕ
  pub editable : Bool
  pub value : RuleValue

abbrev as_rule : {A : Type 0} → FieldType A → (A → RuleValue) → Read RuleValue
as_rule value_type f = value_type.read >>= λ v. pure (f v)

unfoldable pub read_rule : ℤ → Read RuleValue
read_rule t =
    if eqb_ℤ t (pos 1)
    then as_rule bool (λ v. bool_rule v)
    else if eqb_ℤ t (pos 2)
    then as_rule var_int (λ v. int_rule v)
    else if eqb_ℤ t (pos 3)
    then as_rule float_le (λ v. float_rule v)
    else raise value_error

unfoldable pub write_rule : RuleValue → Write
write_rule (bool_rule v) = bool.write v
write_rule (int_rule v) = var_int.write v
write_rule (float_rule v) = float_le.write v

-- One round of the loop over the rules.
unfoldable pub game_rule : FieldType GameRule
game_rule = record {
  read = do
    name ← string.read
    editable ← bool.read
    type_id ← uvar_int.read
    value ← read_rule type_id
    pure (record { name = name; editable = editable; value = value });
  write = λ rule. do
    string.write rule.name
    bool.write rule.editable
    uvar_int.write (pos (rule_type rule.value))
    write_rule rule.value;
}

abbrev pub game_rules : FieldType (List GameRule)
game_rules = array_type game_rule

pub record Experiment : Type 0 where
  pub name : List ℕ
  pub enabled : Bool

unfoldable pub experiment : FieldType Experiment
experiment = record {
  read = do
    name ← string.read
    enabled ← bool.read
    pure (record { name = name; enabled = enabled });
  write = λ exp. do
    string.write exp.name
    bool.write exp.enabled;
}

-- `_ExperimentsType(count_type)`
unfoldable pub experiments_type : FieldType ℤ → FieldType (List Experiment)
experiments_type count_type = record {
  read = do
    count ← count_type.read
    repeat (pos_part count) experiment.read;
  write = λ value. do
    count_type.write (pos (length value))
    for_each value experiment.write;
}

abbrev pub experiments : FieldType (List Experiment)
experiments = experiments_type uint_le

abbrev pub experiments_v860 : FieldType (List Experiment)
experiments_v860 = experiments_type int_le
