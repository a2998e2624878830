-- ===== src/Steps/V975ToV1001/SoundNames/Fourth.antt =====
-- protocol/v975_to_v1001/handlers/sound_event_map.py: part of the table of names.
use endweave.Prelude.{ℕ, String, List, [], ◌∷◌}

abbrev pub names_fourth : List (ℕ × String)
names_fourth =
    (459, "pickup")
    ∷ (460, "insert_enchanted")
    ∷ (461, "pickup_enchanted")
    ∷ (462, "brush")
    ∷ (463, "brush_completed")
    ∷ (464, "shatter_pot")
    ∷ (465, "break_pot")
    ∷ (466, "block.sniffer_egg.crack")
    ∷ (467, "block.sniffer_egg.hatch")
    ∷ (468, "block.sign.waxed_interact_fail")
    ∷ (469, "record.relic")
    ∷ (470, "note.bass")
    ∷ (471, "pumpkin.carve")
    ∷ (472, "mob.husk.convert_to_zombie")
    ∷ (473, "mob.pig.death")
    ∷ (474, "mob.hoglin.converted_to_zombified")
    ∷ (475, "ambient.underwater.enter")
    ∷ (476, "ambient.underwater.exit")
    ∷ (477, "bottle.fill")
    ∷ (478, "bottle.empty")
    ∷ (479, "crafter.craft")
    ∷ (480, "crafter.fail")
    ∷ (481, "block.decorated_pot.insert")
    ∷ (482, "block.decorated_pot.insert_fail")
    ∷ (483, "crafter.disable_slot")
    ∷ (484, "trial_spawner.open_shutter")
    ∷ (485, "trial_spawner.eject_item")
    ∷ (486, "trial_spawner.detect_player")
    ∷ (487, "trial_spawner.spawn_mob")
    ∷ (488, "trial_spawner.close_shutter")
    ∷ (489, "trial_spawner.ambient")
    ∷ (490, "block.copper_bulb.turn_on")
    ∷ (491, "block.copper_bulb.turn_off")
    ∷ (492, "ambient.in.air")
    ∷ (493, "breeze_wind_charge.burst")
    ∷ (494, "imitate.breeze")
    ∷ (495, "mob.armadillo.brush")
    ∷ (496, "mob.armadillo.scute_drop")
    ∷ (497, "armor.equip_wolf")
    ∷ (498, "armor.unequip_wolf")
    ∷ (499, "reflect")
    ∷ (500, "vault.open_shutter")
    ∷ (501, "vault.close_shutter")
    ∷ (502, "vault.eject_item")
    ∷ (503, "vault.insert_item")
    ∷ (504, "vault.insert_item_fail")
    ∷ (505, "vault.ambient")
    ∷ (506, "vault.activate")
    ∷ (507, "vault.deactivate")
    ∷ (508, "hurt.reduced")
    ∷ (509, "wind_charge.burst")
    ∷ (510, "imitate.bogged")
    ∷ (511, "armor.crack_wolf")
    ∷ (512, "armor.break_wolf")
    ∷ (513, "armor.repair_wolf")
    ∷ (514, "mace.smash_air")
    ∷ (515, "mace.smash_ground")
    ∷ (516, "trial_spawner.charge_activate")
    ∷ (517, "trial_spawner.ambient_ominous")
    ∷ (518, "ominous_item_spawner.spawn_item")
    ∷ (519, "ominous_bottle.end_use")
    ∷ (520, "mace.heavy_smash_ground")
    ∷ (521, "ominous_item_spawner.spawn_item_begin")
    ∷ (523, "apply_effect.bad_omen")
    ∷ (524, "apply_effect.raid_omen")
    ∷ (525, "apply_effect.trial_omen")
    ∷ (526, "ominous_item_spawner.about_to_spawn_item")
    ∷ (527, "record.creator")
    ∷ (528, "record.creator_music_box")
    ∷ (529, "record.precipice")
    ∷ (530, "vault.reject_rewarded_player")
    ∷ (531, "imitate.drowned")
    ∷ (532, "imitate.creaking")
    ∷ (533, "bundle.insert_fail")
    ∷ (534, "sponge.absorb")
    ∷ (536, "block.creaking_heart.trail")
    ∷ (537, "creaking_heart_spawn")
    ∷ (538, "activate")
    ∷ (539, "deactivate")
    ∷ (540, "freeze")
    ∷ (541, "unfreeze")
    ∷ (542, "open")
    ∷ (543, "open_long")
    ∷ (544, "close")
    ∷ (545, "close_long")
    ∷ (546, "imitate.phantom")
    ∷ (547, "imitate.zoglin")
    ∷ (548, "imitate.guardian")
    ∷ (549, "imitate.ravager")
    ∷ (550, "imitate.pillager")
    ∷ (551, "place_in_water")
    ∷ (552, "state_change")
    ∷ (553, "imitate.happy_ghast")
    ∷ (554, "armor.unequip_generic")
    ∷ (555, "record.tears")
    ∷ (556, "ambient.weather.the_end_light_flash")
    ∷ (557, "lead.leash")
    ∷ (558, "lead.unleash")
    ∷ (559, "lead.break")
    ∷ (560, "unsaddle")
    ∷ (561, "armor.equip_copper")
    ∷ (562, "record.lava_chicken")
    ∷ (563, "place_item")
    ∷ (564, "single_swap")
    ∷ (565, "multi_swap")
    ∷ (566, "item.enchant.lunge1")
    ∷ (567, "item.enchant.lunge2")
    ∷ (568, "item.enchant.lunge3")
    ∷ (569, "attack.critical")
    ∷ (570, "item.spear.attack_hit")
    ∷ (571, "item.spear.attack_miss")
    ∷ (572, "item.wooden_spear.attack_hit")
    ∷ (573, "item.wooden_spear.attack_miss")
    ∷ (574, "imitate.parched")
    ∷ (575, "imitate.camel_husk")
    ∷ (576, "item.spear.use")
    ∷ (577, "item.wooden_spear.use")
    ∷ (578, "saddle_in_water")
    ∷ (579, "item.stone_spear.attack_hit")
    ∷ (580, "item.iron_spear.attack_hit")
    ∷ (581, "item.copper_spear.attack_hit")
    ∷ (582, "item.golden_spear.attack_hit")
    ∷ (583, "item.diamond_spear.attack_hit")
    ∷ (584, "item.netherite_spear.attack_hit")
    ∷ (585, "item.stone_spear.attack_miss")
    ∷ (586, "item.iron_spear.attack_miss")
    ∷ (587, "item.copper_spear.attack_miss")
    ∷ (588, "item.golden_spear.attack_miss")
    ∷ (589, "item.diamond_spear.attack_miss")
    ∷ (590, "item.netherite_spear.attack_miss")
    ∷ (591, "item.stone_spear.use")
    ∷ (592, "item.iron_spear.use")
    ∷ (593, "item.copper_spear.use")
    ∷ (594, "item.golden_spear.use")
    ∷ (595, "item.diamond_spear.use")
    ∷ (596, "item.netherite_spear.use")
    ∷ (597, "pause_growth")
    ∷ (598, "reset_growth")
    ∷ (599, "pushed_by_player")
    ∷ (600, "bounce")
    ∷ []
