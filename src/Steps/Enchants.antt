-- ===== src/Steps/Enchants.antt =====
-- protocol/v944_to_v975/handlers/player_enchant_options.py: what the client gets.
use endweave.Prelude.{
  ◌▸◌, ℕ, ◌^◌, ◌<◌, ◌≡◌, some, List, [], ◌∷◌, ◌++◌, length, pos, leb, arith, if◌then◌else◌,
}
use endweave.Exec.{repeat}
use endweave.Codec.Leb128.{groups}
use endweave.Codec.FieldType.{byte, int_le, string, uvar_int}
use endweave.Codec.FieldType.Codes.{Field}
use endweave.Codec.FieldType.Primitives.{Codes-byte}
use endweave.Codec.FieldType.Variable.{Codes-uvar_int}
use endweave.Codec.Wrapper.{wrap, read, write}
use endweave.Codec.Wrapper.Fields.{
  Rewrites, Rewrites-bind, Rewrites-pure, Rewrites-read, Rewrites-write,
}
use endweave.Codec.Wrapper.Chunk.{Chunk, changed, chain, each, same, counted}
use endweave.Codec.Wrapper.Flow.{Rewrites-each}
use endweave.Connection.{User}
use endweave.Protocol.Base.Detect.{Forwards}
use endweave.Steps.Rounds.{Rewrites-Forwards}
use endweave.Steps.Items.{pass}
use endweave.Steps.V944ToV975.Added.{
  capped, enchantment, enchantments, enchant_option, rewrite_player_enchant_options,
}

-- An enchantment: its type and its level.
pub record Enchantment : Type 0 where
  pub type : Field byte
  pub level : Field byte

abbrev enchantment_chunk : Enchantment → Chunk
enchantment_chunk e = chain (same e.type ∷ same e.level ∷ [])

pub record Enchantments : Type 0 where
  pub list : List Enchantment
  pub few : length list < 2 ^ 32

abbrev enchantments_chunk : Enchantments → Chunk
enchantments_chunk e =
    chain (same (counted (length e.list) e.few) ∷ each enchantment_chunk e.list ∷ [])

enchantment-Rewrites :
    (e : Enchantment)
    → Rewrites {U = User} enchantment (enchantment_chunk e).older (enchantment_chunk e).newer tt
enchantment-Rewrites e = pass e.type _ ▸ pass e.level _ (Rewrites-pure tt)

enchantments-Rewrites :
    (e : Enchantments)
    → Rewrites enchantments (enchantments_chunk e).older (enchantments_chunk e).newer tt
enchantments-Rewrites e =
    pass (counted (length e.list) e.few) _
    ▸ Rewrites-bind (repeat (length e.list) enchantment) _
        (Rewrites-each enchantment enchantment_chunk enchantment-Rewrites e.list) (Rewrites-pure tt)

-- An option of the enchanting table, with its three lists of enchantments.
pub record EnchantOption : Type 0 where
  pub cost : ℕ
  pub is_int : cost < 2 ^ 32
  pub slot : Field int_le
  pub lists : List Enchantments
  pub has_three : length lists ≡ 3
  pub name : Field string
  pub net_id : Field uvar_int

-- The cost arrives as a byte, the greatest one for greater costs.
abbrev pub option_chunk : EnchantOption → Chunk
option_chunk o = chain (
    changed (groups 4 o.cost) ((if leb o.cost 255 then o.cost else 255) ∷ [])
    ∷ same o.slot
    ∷ each enchantments_chunk o.lists
    ∷ same o.name
    ∷ same o.net_id
    ∷ [])

abbrev byte_cost : ℕ → ℕ
byte_cost cost = if leb cost 255 then cost else 255

capped-byte_cost : (cost : ℕ) → capped (pos cost) ≡ pos (byte_cost cost)
capped-byte_cost cost = ground arith

byte_cost-lt : (cost : ℕ) → byte_cost cost < 256
byte_cost-lt cost = ground arith

cost-Rewrites :
    (cost : ℕ) → Rewrites {U = User} (write byte (capped (pos cost))) [] (byte_cost cost ∷ []) tt
cost-Rewrites cost = rw (capped-byte_cost cost) (
    Rewrites-write byte (pos (byte_cost cost)) (byte_cost cost ∷ [])
      (Codes-byte (byte_cost cost) (byte_cost-lt cost)))

option-Rewrites :
    (o : EnchantOption) → Rewrites enchant_option (option_chunk o).older (option_chunk o).newer tt
unfolding enchant_option
option-Rewrites o =
    Rewrites-bind (read uvar_int) _
      (Rewrites-read uvar_int (pos o.cost) (groups 4 o.cost) (Codes-uvar_int o.cost o.is_int))
    ▸ Rewrites-bind (write byte (capped (pos o.cost))) _ (cost-Rewrites o.cost)
    ▸ pass o.slot _
    ▸ Rewrites-bind (repeat 3 enchantments) _ (
        rw o.has_three at
          (Rewrites-each enchantments enchantments_chunk enchantments-Rewrites o.lists))
    ▸ pass o.name _
    ▸ pass o.net_id _ (Rewrites-pure tt)

-- PlayerEnchantOptions of fewer than 2 ** 32 options with three lists of enchantments each: the
-- handler returns, does not cancel and leaves the connection. Each cost is forwarded as a byte, 255
-- for all greater costs; all other fields, and what follows, stay.
pub rewrite_player_enchant_options_lem :
    (options : List EnchantOption) (few : length options < 2 ^ 32) (rest : List ℕ) (u : User)
    → let packet = chain (same (counted (length options) few) ∷ each option_chunk options ∷ []) in
      Forwards
        (rewrite_player_enchant_options (wrap (packet.older ++ rest) (some u)))
        (packet.newer ++ rest)
        u
unfolding rewrite_player_enchant_options
rewrite_player_enchant_options_lem options few rest u =
    Rewrites-Forwards rewrite_player_enchant_options rest u (
      pass (counted (length options) few) _
      ▸ Rewrites-bind (repeat (length options) enchant_option) _
          (Rewrites-each enchant_option option_chunk option-Rewrites options) (Rewrites-pure tt))
