-- ===== src/Steps/V975ToV1001/SoundNames/Second.antt =====
-- protocol/v975_to_v1001/handlers/sound_event_map.py: part of the table of names.
use endweave.Prelude.{ℕ, String, List, [], ◌∷◌}

abbrev pub names_second : List (ℕ × String)
names_second =
    (141, "purr")
    ∷ (142, "purreow")
    ∷ (143, "death.min.volume")
    ∷ (144, "death.mid.volume")
    ∷ (145, "imitate.blaze")
    ∷ (146, "imitate.cave_spider")
    ∷ (147, "imitate.creeper")
    ∷ (148, "imitate.elder_guardian")
    ∷ (149, "imitate.ender_dragon")
    ∷ (150, "imitate.enderman")
    ∷ (151, "imitate.endermite")
    ∷ (152, "imitate.evocation_illager")
    ∷ (153, "imitate.ghast")
    ∷ (154, "imitate.husk")
    ∷ (155, "imitate.illusion_illager")
    ∷ (156, "imitate.magma_cube")
    ∷ (157, "imitate.polar_bear")
    ∷ (158, "imitate.shulker")
    ∷ (159, "imitate.silverfish")
    ∷ (160, "imitate.skeleton")
    ∷ (161, "imitate.slime")
    ∷ (162, "imitate.spider")
    ∷ (163, "imitate.stray")
    ∷ (164, "imitate.vex")
    ∷ (165, "imitate.vindication_illager")
    ∷ (166, "imitate.witch")
    ∷ (167, "imitate.wither")
    ∷ (168, "imitate.wither_skeleton")
    ∷ (169, "imitate.wolf")
    ∷ (170, "imitate.zombie")
    ∷ (171, "imitate.zombie_pigman")
    ∷ (172, "imitate.zombie_villager")
    ∷ (173, "block.end_portal_frame.fill")
    ∷ (174, "block.end_portal.spawn")
    ∷ (175, "random.anvil_use")
    ∷ (176, "bottle.dragonbreath")
    ∷ (177, "portal.travel")
    ∷ (178, "item.trident.hit")
    ∷ (179, "item.trident.return")
    ∷ (180, "item.trident.riptide_1")
    ∷ (181, "item.trident.riptide_2")
    ∷ (182, "item.trident.riptide_3")
    ∷ (183, "item.trident.throw")
    ∷ (184, "item.trident.thunder")
    ∷ (185, "item.trident.hit_ground")
    ∷ (186, "default")
    ∷ (187, "block.fletching_table.use")
    ∷ (188, "elemconstruct.open")
    ∷ (189, "icebomb.hit")
    ∷ (190, "balloonpop")
    ∷ (191, "lt.reaction.icebomb")
    ∷ (192, "lt.reaction.bleach")
    ∷ (193, "lt.reaction.epaste")
    ∷ (194, "lt.reaction.epaste2")
    ∷ (195, "lt.reaction.glow_stick")
    ∷ (196, "lt.reaction.glow_stick2")
    ∷ (197, "lt.reaction.luminol")
    ∷ (198, "lt.reaction.salt")
    ∷ (199, "lt.reaction.fertilizer")
    ∷ (200, "lt.reaction.fireball")
    ∷ (201, "lt.reaction.mgsalt")
    ∷ (202, "lt.reaction.miscfire")
    ∷ (203, "lt.reaction.fire")
    ∷ (204, "lt.reaction.miscexplosion")
    ∷ (205, "lt.reaction.miscmystical")
    ∷ (206, "lt.reaction.miscmystical2")
    ∷ (207, "lt.reaction.product")
    ∷ (208, "sparkler.use")
    ∷ (209, "glowstick.use")
    ∷ (210, "sparkler.active")
    ∷ (211, "convert_to_drowned")
    ∷ (212, "bucket.fill.fish")
    ∷ (213, "bucket.empty.fish")
    ∷ (214, "bubble.up")
    ∷ (215, "bubble.down")
    ∷ (216, "bubble.pop")
    ∷ (217, "bubble.upinside")
    ∷ (218, "bubble.downinside")
    ∷ (219, "hurt.baby")
    ∷ (220, "death.baby")
    ∷ (221, "step.baby")
    ∷ (222, "spawn.baby")
    ∷ (223, "born")
    ∷ (224, "block.turtle_egg.break")
    ∷ (225, "block.turtle_egg.crack")
    ∷ (226, "block.turtle_egg.hatch")
    ∷ (227, "lay_egg")
    ∷ (228, "block.turtle_egg.attack")
    ∷ (229, "beacon.activate")
    ∷ (230, "beacon.ambient")
    ∷ (231, "beacon.deactivate")
    ∷ (232, "beacon.power")
    ∷ (233, "conduit.activate")
    ∷ (234, "conduit.ambient")
    ∷ (235, "conduit.attack")
    ∷ (236, "conduit.deactivate")
    ∷ (237, "conduit.short")
    ∷ (238, "swoop")
    ∷ (239, "block.bamboo_sapling.place")
    ∷ (240, "presneeze")
    ∷ (241, "sneeze")
    ∷ (242, "ambient.tame")
    ∷ (243, "scared")
    ∷ (244, "block.scaffolding.climb")
    ∷ (245, "crossbow.loading.start")
    ∷ (246, "crossbow.loading.middle")
    ∷ (247, "crossbow.loading.end")
    ∷ (248, "crossbow.shoot")
    ∷ (249, "crossbow.quick_charge.start")
    ∷ (250, "crossbow.quick_charge.middle")
    ∷ (251, "crossbow.quick_charge.end")
    ∷ (252, "ambient.aggressive")
    ∷ (253, "ambient.worried")
    ∷ (254, "cant_breed")
    ∷ (255, "item.shield.block")
    ∷ (256, "item.book.put")
    ∷ (257, "block.grindstone.use")
    ∷ (258, "block.bell.hit")
    ∷ (259, "block.campfire.crackle")
    ∷ (260, "roar")
    ∷ (261, "stun")
    ∷ (262, "block.sweet_berry_bush.hurt")
    ∷ (263, "block.sweet_berry_bush.pick")
    ∷ (264, "block.cartography_table.use")
    ∷ (265, "block.stonecutter.use")
    ∷ (266, "block.composter.empty")
    ∷ (267, "block.composter.fill")
    ∷ (268, "block.composter.fill_success")
    ∷ (269, "block.composter.ready")
    ∷ (270, "block.barrel.open")
    ∷ (271, "block.barrel.close")
    ∷ (272, "raid.horn")
    ∷ (273, "block.loom.use")
    ∷ (274, "ambient.in.raid")
    ∷ (275, "ui.cartography_table.take_result")
    ∷ (276, "ui.stonecutter.take_result")
    ∷ (277, "ui.loom.take_result")
    ∷ (278, "block.smoker.smoke")
    ∷ (279, "block.blastfurnace.fire_crackle")
    ∷ (280, "block.smithing_table.use")
    ∷ (281, "screech")
    ∷ []
