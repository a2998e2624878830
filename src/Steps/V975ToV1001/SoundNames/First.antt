-- ===== src/Steps/V975ToV1001/SoundNames/First.antt =====
-- protocol/v975_to_v1001/handlers/sound_event_map.py: part of the table of names.
use endweave.Prelude.{ℕ, String, List, [], ◌∷◌}

abbrev pub names_first : List (ℕ × String)
names_first =
    (0, "item.use.on")
    ∷ (1, "hit")
    ∷ (2, "step")
    ∷ (3, "fly")
    ∷ (4, "jump")
    ∷ (5, "break")
    ∷ (6, "place")
    ∷ (7, "heavy.step")
    ∷ (8, "gallop")
    ∷ (9, "fall")
    ∷ (10, "ambient")
    ∷ (11, "ambient.baby")
    ∷ (12, "ambient.in.water")
    ∷ (13, "breathe")
    ∷ (14, "death")
    ∷ (15, "death.in.water")
    ∷ (16, "death.to.zombie")
    ∷ (17, "hurt")
    ∷ (18, "hurt.in.water")
    ∷ (19, "mad")
    ∷ (20, "boost")
    ∷ (21, "bow")
    ∷ (22, "squish.big")
    ∷ (23, "squish.small")
    ∷ (24, "fall.big")
    ∷ (25, "fall.small")
    ∷ (26, "splash")
    ∷ (27, "fizz")
    ∷ (28, "flap")
    ∷ (29, "swim")
    ∷ (30, "drink")
    ∷ (31, "eat")
    ∷ (32, "takeoff")
    ∷ (33, "shake")
    ∷ (34, "plop")
    ∷ (35, "land")
    ∷ (36, "saddle")
    ∷ (37, "armor")
    ∷ (38, "mob.armor_stand.place")
    ∷ (39, "add.chest")
    ∷ (40, "throw")
    ∷ (41, "attack")
    ∷ (42, "attack.nodamage")
    ∷ (43, "attack.strong")
    ∷ (44, "warn")
    ∷ (45, "shear")
    ∷ (46, "milk")
    ∷ (47, "thunder")
    ∷ (48, "explode")
    ∷ (49, "fire")
    ∷ (50, "ignite")
    ∷ (51, "fuse")
    ∷ (52, "stare")
    ∷ (53, "spawn")
    ∷ (54, "shoot")
    ∷ (55, "break.block")
    ∷ (56, "launch")
    ∷ (57, "blast")
    ∷ (58, "large.blast")
    ∷ (59, "twinkle")
    ∷ (60, "remedy")
    ∷ (61, "unfect")
    ∷ (62, "levelup")
    ∷ (63, "bow.hit")
    ∷ (64, "bullet.hit")
    ∷ (65, "extinguish.fire")
    ∷ (66, "item.fizz")
    ∷ (67, "chest.open")
    ∷ (68, "chest.closed")
    ∷ (69, "shulkerbox.open")
    ∷ (70, "shulkerbox.closed")
    ∷ (71, "enderchest.open")
    ∷ (72, "enderchest.closed")
    ∷ (73, "power.on")
    ∷ (74, "power.off")
    ∷ (75, "attach")
    ∷ (76, "detach")
    ∷ (77, "deny")
    ∷ (78, "tripod")
    ∷ (79, "pop")
    ∷ (80, "drop.slot")
    ∷ (81, "note")
    ∷ (82, "thorns")
    ∷ (83, "piston.in")
    ∷ (84, "piston.out")
    ∷ (85, "portal")
    ∷ (86, "water")
    ∷ (87, "lava.pop")
    ∷ (88, "lava")
    ∷ (89, "burp")
    ∷ (90, "bucket.fill.water")
    ∷ (91, "bucket.fill.lava")
    ∷ (92, "bucket.empty.water")
    ∷ (93, "bucket.empty.lava")
    ∷ (94, "armor.equip_chain")
    ∷ (95, "armor.equip_diamond")
    ∷ (96, "armor.equip_generic")
    ∷ (97, "armor.equip_gold")
    ∷ (98, "armor.equip_iron")
    ∷ (99, "armor.equip_leather")
    ∷ (100, "armor.equip_elytra")
    ∷ (101, "record.13")
    ∷ (102, "record.cat")
    ∷ (103, "record.blocks")
    ∷ (104, "record.chirp")
    ∷ (105, "record.far")
    ∷ (106, "record.mall")
    ∷ (107, "record.mellohi")
    ∷ (108, "record.stal")
    ∷ (109, "record.strad")
    ∷ (110, "record.ward")
    ∷ (111, "record.11")
    ∷ (112, "record.wait")
    ∷ (113, "record.null")
    ∷ (114, "flop")
    ∷ (115, "elderguardian.curse")
    ∷ (116, "mob.warning")
    ∷ (117, "mob.warning.baby")
    ∷ (118, "teleport")
    ∷ (119, "shulker.open")
    ∷ (120, "shulker.close")
    ∷ (121, "haggle")
    ∷ (122, "haggle.yes")
    ∷ (123, "haggle.no")
    ∷ (124, "haggle.idle")
    ∷ (125, "chorusgrow")
    ∷ (126, "chorusdeath")
    ∷ (127, "glass")
    ∷ (128, "potion.brewed")
    ∷ (129, "cast.spell")
    ∷ (130, "prepare.attack")
    ∷ (131, "prepare.summon")
    ∷ (132, "prepare.wololo")
    ∷ (133, "fang")
    ∷ (134, "charge")
    ∷ (135, "camera.take_picture")
    ∷ (136, "leashknot.place")
    ∷ (137, "leashknot.break")
    ∷ (138, "growl")
    ∷ (139, "whine")
    ∷ (140, "pant")
    ∷ []
