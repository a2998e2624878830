-- ===== src/Protocol/Manager/Search/Queue.antt =====
-- The paths in the queue of the search, by their lengths.
use mathlib.Core.List.{Memᴰ}
use mathlib.Core.List.Memᴰ
use endweave.Prelude.{ℕ, ◌≤◌, refl, inl, inr, List, [], ◌∷◌, ◌++◌, ℤ, length, All}
use endweave.Protocol.Manager.{ProtocolPath, Queue}

abbrev pub Later : ℕ → ℤ × ProtocolPath → Type 0
Later n entry = n ≤ length entry.1

abbrev pub IsSorted : Queue → Type 0
IsSorted [] = Unit
IsSorted ((u, path) ∷ queue) = All (Later (length path)) queue × IsSorted queue

pub All-mem : {A : Type 0} (P : A → Type 0) (xs : List A) {x : A} → All P xs → Memᴰ x xs → P x
All-mem P [] h m = absurd (Memᴰ.not-nil m)
All-mem P (y ∷ ys) h m = elim (Memᴰ.cases_cons m) [
  | inl e ↦ mathlib.Core.Path.subst P (mathlib.Core.Path.sym e) h.0
  | inr m' ↦ All-mem P ys h.1 m'
]

All-concat :
    {A : Type 0} (P : A → Type 0) (xs : List A) (y : A) → All P xs → P y → All P (xs ++ y ∷ [])
All-concat P [] y h k = (k, tt)
All-concat P (x ∷ xs) y (hx, hxs) k = (hx, All-concat P xs y hxs k)

-- A path that is not shorter than any in the queue goes to its end.
pub IsSorted-concat :
    (queue : Queue) (u : ℤ) (path : ProtocolPath)
    → IsSorted queue
    → ((v : ℤ) (other : ProtocolPath) → Memᴰ (v, other) queue → length other ≤ length path)
    → IsSorted (queue ++ (u, path) ∷ [])
IsSorted-concat [] u path h le = (tt, tt)
IsSorted-concat ((v, other) ∷ queue) u path (h, hs) le = (
  All-concat (Later (length other)) queue (u, path) h (le v other (Memᴰ.head refl)),
  IsSorted-concat queue u path hs (λ w o m. le w o (Memᴰ.tail m)),
)
