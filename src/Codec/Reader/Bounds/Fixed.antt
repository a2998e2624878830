-- ===== src/Codec/Reader/Bounds/Fixed.antt =====
-- The methods of the reader for numbers of a fixed width, on any payload.
use endweave.Codec.Reader.{
  read_short_le, read_ushort_le, read_int_le, read_int_be, read_uint_le, read_int64_le,
  read_uint64_le, read_float_le, read_double_le,
}
use endweave.Codec.Reader.Bounds.{Safe, safe_rules, Safe-unpack_from}

ruleset read_rules = (safe_rules, Safe-unpack_from)

pub Safe-read_short_le : Safe read_short_le
unfolding read_short_le
Safe-read_short_le = search read_rules

pub Safe-read_ushort_le : Safe read_ushort_le
unfolding read_ushort_le
Safe-read_ushort_le = search read_rules

pub Safe-read_int_le : Safe read_int_le
unfolding read_int_le
Safe-read_int_le = search read_rules

pub Safe-read_int_be : Safe read_int_be
unfolding read_int_be
Safe-read_int_be = search read_rules

pub Safe-read_uint_le : Safe read_uint_le
unfolding read_uint_le
Safe-read_uint_le = search read_rules

pub Safe-read_int64_le : Safe read_int64_le
unfolding read_int64_le
Safe-read_int64_le = search read_rules

pub Safe-read_uint64_le : Safe read_uint64_le
unfolding read_uint64_le
Safe-read_uint64_le = search read_rules

pub Safe-read_float_le : Safe read_float_le
unfolding read_float_le
Safe-read_float_le = search read_rules

pub Safe-read_double_le : Safe read_double_le
unfolding read_double_le
Safe-read_double_le = search read_rules
