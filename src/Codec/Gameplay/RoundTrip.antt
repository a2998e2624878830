-- ===== src/Codec/Gameplay/RoundTrip.antt =====
-- codec/types/gameplay.py: game rules and experiments are read back from what was written.
use endweave.Prelude.{ℕ, ◌^◌, ◌<◌, refl, Bool, List, ◌++◌, ℤ, pos, length, arith}
use endweave.Codec.Leb128.{groups}
use endweave.Codec.Reader.View.{Reads, Reads-bind, Reads-map}
use endweave.Codec.Writer.View.{Writes, Writes-then}
use endweave.Codec.FieldType.{FieldType, bool, float_le, string, uvar_int, var_int}
use endweave.Codec.FieldType.Codes.{Codes, CodesAll, Field, Reads-repeat, Writes-for_each}
use endweave.Codec.FieldType.Variable.{Codes-uvar_int}
use endweave.Codec.Gameplay.{
  RuleValue, bool_rule, int_rule, float_rule, rule_type, read_rule, write_rule, game_rule,
  Experiment, experiment, experiments_type,
}

-- A value whose own field type codes it.
pub data CodedRule : RuleValue → List ℕ → Type 0 where
  coded_bool : {v : Bool} {bs : List ℕ} → Codes bool v bs → CodedRule (bool_rule v) bs
  coded_int : {v : ℤ} {bs : List ℕ} → Codes var_int v bs → CodedRule (int_rule v) bs
  coded_float : {v : ℕ} {bs : List ℕ} → Codes float_le v bs → CodedRule (float_rule v) bs

Reads-rule :
    {v : RuleValue} {bs : List ℕ} → CodedRule v bs → Reads (read_rule (pos (rule_type v))) bs v
unfolding read_rule
Reads-rule (coded_bool c) = Reads-map _ (λ v. bool_rule v) c.reads refl
Reads-rule (coded_int c) = Reads-map _ (λ v. int_rule v) c.reads refl
Reads-rule (coded_float c) = Reads-map _ (λ v. float_rule v) c.reads refl

Writes-rule : {v : RuleValue} {bs : List ℕ} → CodedRule v bs → Writes (write_rule v) bs
unfolding write_rule
Writes-rule (coded_bool c) = c.writes
Writes-rule (coded_int c) = c.writes
Writes-rule (coded_float c) = c.writes

rule_type-lt : (v : RuleValue) → rule_type v < 2 ^ 32
rule_type-lt v = ground arith

pub Codes-game_rule :
    (name : Field string) (editable : Field bool) (v : RuleValue) (bs : List ℕ)
    → CodedRule v bs
    → Codes game_rule
        (record { name = name.value; editable = editable.value; value = v })
        (name.bytes ++ (editable.bytes ++ (groups 4 (rule_type v) ++ bs)))
unfolding game_rule
Codes-game_rule name editable v bs c =
    let t = Codes-uvar_int (rule_type v) (rule_type-lt v) in
    record {
      reads = Reads-bind string.read _ name.coded.reads (
          Reads-bind bool.read _ editable.coded.reads (
            Reads-bind uvar_int.read _ t.reads
              (Reads-map (read_rule (pos (rule_type v))) _ (Reads-rule c) refl)));
      writes = Writes-then (string.write name.value) _ name.coded.writes (
          Writes-then (bool.write editable.value) _ editable.coded.writes
            (Writes-then (uvar_int.write (pos (rule_type v))) _ t.writes (Writes-rule c)));
    }

pub Codes-experiment :
    (name : Field string) (enabled : Field bool)
    → Codes experiment
        (record { name = name.value; enabled = enabled.value })
        (name.bytes ++ enabled.bytes)
unfolding experiment
Codes-experiment name enabled = record {
  reads =
      Reads-bind string.read _ name.coded.reads (Reads-map bool.read _ enabled.coded.reads refl);
  writes =
      Writes-then (string.write name.value) (bool.write enabled.value) name.coded.writes
        enabled.coded.writes;
}

-- A list behind a count that `count_type` codes.
pub Codes-experiments_type :
    (count_type : FieldType ℤ) (exps : List Experiment) (count bs : List ℕ)
    → Codes count_type (pos (length exps)) count
    → CodesAll experiment exps bs
    → Codes (experiments_type count_type) exps (count ++ bs)
unfolding experiments_type
Codes-experiments_type count_type exps count bs c all = record {
  reads = Reads-bind count_type.read _ c.reads (Reads-repeat experiment all);
  writes =
      Writes-then (count_type.write (pos (length exps))) _ c.writes
        (Writes-for_each experiment all);
}
