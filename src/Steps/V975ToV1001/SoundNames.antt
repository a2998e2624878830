-- ===== src/Steps/V975ToV1001/SoundNames.antt =====
-- protocol/v975_to_v1001/handlers/sound_event_map.py: the names of sounds.
pub mod First
pub mod Second
pub mod Third
pub mod Fourth
use Prim.Native.Char.{code}
use Prim.Native.String
use endweave.Prelude.{ℕ, String, List, [], ◌∷◌, ◌++◌, Dict, insert, list_eq, ℤ, pos}
use First.{names_first}
use Second.{names_second}
use Third.{names_third}
use Fourth.{names_fourth}

-- The code points of a text.
abbrev pub codes : String → List ℕ
codes String.[] = []
codes (String.◌∷◌ c s) = code c ∷ codes s

abbrev pub with_codes : List (ℕ × String) → Dict ℤ (List ℕ)
with_codes [] = []
with_codes (entry ∷ entries) = (pos entry.0, codes entry.1) ∷ with_codes entries

-- `SOUND_EVENT_NAMES`
unfoldable pub sound_event_names : Dict ℤ (List ℕ)
sound_event_names = with_codes (names_first ++ (names_second ++ (names_third ++ names_fourth)))

-- `{name: id_ for id_, name in names.items()}`: a name that occurs again gets the later number.
unfoldable pub inverse : Dict ℤ (List ℕ) → Dict (List ℕ) ℤ → Dict (List ℕ) ℤ
inverse [] ids = ids
inverse (entry ∷ entries) ids = inverse entries (insert entry.1 entry.0 ids)

-- `SOUND_EVENT_IDS`
unfoldable pub sound_event_ids : Dict (List ℕ) ℤ
sound_event_ids = inverse sound_event_names []
