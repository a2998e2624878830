-- ===== src/Steps/V975ToV1001/SoundNames/Third.antt =====
-- protocol/v975_to_v1001/handlers/sound_event_map.py: part of the table of names.
use endweave.Prelude.{ℕ, String, List, [], ◌∷◌}

abbrev pub names_third : List (ℕ × String)
names_third =
    (282, "sleep")
    ∷ (283, "block.furnace.lit")
    ∷ (284, "convert_mooshroom")
    ∷ (285, "milk_suspiciously")
    ∷ (286, "celebrate")
    ∷ (287, "jump.prevent")
    ∷ (288, "ambient.pollinate")
    ∷ (289, "block.beehive.drip")
    ∷ (290, "block.beehive.enter")
    ∷ (291, "block.beehive.exit")
    ∷ (292, "block.beehive.work")
    ∷ (293, "block.beehive.shear")
    ∷ (294, "drink.honey")
    ∷ (295, "ambient.cave")
    ∷ (296, "retreat")
    ∷ (297, "converted_to_zombified")
    ∷ (298, "admire")
    ∷ (299, "step_lava")
    ∷ (300, "tempt")
    ∷ (301, "panic")
    ∷ (302, "angry")
    ∷ (303, "ambient.warped_forest.mood")
    ∷ (304, "ambient.soulsand_valley.mood")
    ∷ (305, "ambient.nether_wastes.mood")
    ∷ (306, "ambient.basalt_deltas.mood")
    ∷ (307, "ambient.crimson_forest.mood")
    ∷ (308, "respawn_anchor.charge")
    ∷ (309, "respawn_anchor.deplete")
    ∷ (310, "respawn_anchor.set_spawn")
    ∷ (311, "respawn_anchor.ambient")
    ∷ (312, "particle.soul_escape.quiet")
    ∷ (313, "particle.soul_escape.loud")
    ∷ (314, "record.pigstep")
    ∷ (315, "lodestone_compass.link_compass_to_lodestone")
    ∷ (316, "smithing_table.use")
    ∷ (317, "armor.equip_netherite")
    ∷ (318, "ambient.warped_forest.loop")
    ∷ (319, "ambient.soulsand_valley.loop")
    ∷ (320, "ambient.nether_wastes.loop")
    ∷ (321, "ambient.basalt_deltas.loop")
    ∷ (322, "ambient.crimson_forest.loop")
    ∷ (323, "ambient.warped_forest.additions")
    ∷ (324, "ambient.soulsand_valley.additions")
    ∷ (325, "ambient.nether_wastes.additions")
    ∷ (326, "ambient.basalt_deltas.additions")
    ∷ (327, "ambient.crimson_forest.additions")
    ∷ (328, "power.on.sculk_sensor")
    ∷ (329, "power.off.sculk_sensor")
    ∷ (330, "bucket.fill.powder_snow")
    ∷ (331, "bucket.empty.powder_snow")
    ∷ (332, "cauldron_drip.water.pointed_dripstone")
    ∷ (333, "cauldron_drip.lava.pointed_dripstone")
    ∷ (334, "drip.water.pointed_dripstone")
    ∷ (335, "drip.lava.pointed_dripstone")
    ∷ (336, "pick_berries.cave_vines")
    ∷ (337, "tilt_down.big_dripleaf")
    ∷ (338, "tilt_up.big_dripleaf")
    ∷ (339, "copper.wax.on")
    ∷ (340, "copper.wax.off")
    ∷ (341, "scrape")
    ∷ (342, "mob.player.hurt_drown")
    ∷ (343, "mob.player.hurt_on_fire")
    ∷ (344, "mob.player.hurt_freeze")
    ∷ (345, "item.spyglass.use")
    ∷ (346, "item.spyglass.stop_using")
    ∷ (347, "chime.amethyst_block")
    ∷ (348, "ambient.screamer")
    ∷ (349, "hurt.screamer")
    ∷ (350, "death.screamer")
    ∷ (351, "milk.screamer")
    ∷ (352, "jump_to_block")
    ∷ (353, "pre_ram")
    ∷ (354, "pre_ram.screamer")
    ∷ (355, "ram_impact")
    ∷ (356, "ram_impact.screamer")
    ∷ (357, "squid.ink_squirt")
    ∷ (358, "glow_squid.ink_squirt")
    ∷ (359, "convert_to_stray")
    ∷ (360, "cake.add_candle")
    ∷ (361, "extinguish.candle")
    ∷ (362, "ambient.candle")
    ∷ (363, "block.click")
    ∷ (364, "block.click.fail")
    ∷ (365, "block.sculk_catalyst.bloom")
    ∷ (366, "block.sculk_shrieker.shriek")
    ∷ (367, "nearby_close")
    ∷ (368, "nearby_closer")
    ∷ (369, "nearby_closest")
    ∷ (370, "agitated")
    ∷ (371, "record.otherside")
    ∷ (372, "tongue")
    ∷ (373, "irongolem.crack")
    ∷ (374, "irongolem.repair")
    ∷ (375, "listening")
    ∷ (376, "heartbeat")
    ∷ (377, "horn_break")
    ∷ (379, "block.sculk.spread")
    ∷ (380, "charge.sculk")
    ∷ (381, "block.sculk_sensor.place")
    ∷ (382, "block.sculk_shrieker.place")
    ∷ (383, "horn_call0")
    ∷ (384, "horn_call1")
    ∷ (385, "horn_call2")
    ∷ (386, "horn_call3")
    ∷ (387, "horn_call4")
    ∷ (388, "horn_call5")
    ∷ (389, "horn_call6")
    ∷ (390, "horn_call7")
    ∷ (426, "imitate.warden")
    ∷ (427, "listening_angry")
    ∷ (428, "item_given")
    ∷ (429, "item_taken")
    ∷ (430, "disappeared")
    ∷ (431, "reappeared")
    ∷ (432, "drink.milk")
    ∷ (433, "block.frog_spawn.hatch")
    ∷ (434, "lay_spawn")
    ∷ (435, "block.frog_spawn.break")
    ∷ (436, "sonic_boom")
    ∷ (437, "sonic_charge")
    ∷ (438, "item_thrown")
    ∷ (439, "record.5")
    ∷ (440, "convert_to_frog")
    ∷ (441, "record.playing")
    ∷ (442, "block.enchanting_table.use")
    ∷ (443, "step_sand")
    ∷ (444, "dash_ready")
    ∷ (445, "bundle.drop_contents")
    ∷ (446, "bundle.insert")
    ∷ (447, "bundle.remove_one")
    ∷ (448, "pressure_plate.click_off")
    ∷ (449, "pressure_plate.click_on")
    ∷ (450, "button.click_off")
    ∷ (451, "button.click_on")
    ∷ (452, "door.open")
    ∷ (453, "door.close")
    ∷ (454, "trapdoor.open")
    ∷ (455, "trapdoor.close")
    ∷ (456, "fence_gate.open")
    ∷ (457, "fence_gate.close")
    ∷ (458, "insert")
    ∷ []
