-- ===== src/Connection/Storage.antt =====
-- connection.py: the storage of a connection.
use endweave.Prelude.{
  ◌≡◌, refl, true, false, none, some, String, lookup-insert, lookup-remove, lookup, string_eq,
  if◌then◌else◌, beq_refl, arith,
}
use text.Mathlib.TextEquality.{eq_iff}
use text.Mathlib.Text.{◌==◌}
use endweave.Connection.{StoredObject, User, get, put, has, remove_stored, clear_storage, is_some}

-- Every object is filed under its own class.
abbrev pub IsFiled : User → Type 0
IsFiled u = (cls : String) (obj : StoredObject) → get cls u ≡ some obj → obj.cls ≡ cls

pub get-put :
    (obj : StoredObject) (cls : String) (u : User)
    → get cls (put obj u) ≡ (if obj.cls == cls then some obj else get cls u)
unfolding get put
get-put obj cls u = lookup-insert obj.cls cls obj u.storage

pub get-remove_stored :
    (cls cls' : String) (u : User)
    → get cls' (remove_stored cls u) ≡ (if cls == cls' then none else get cls' u)
unfolding get remove_stored
get-remove_stored cls cls' u = lookup-remove cls cls' u.storage

has-is_some : (cls : String) (u : User) → has cls u ≡ is_some (get cls u)
unfolding has get
has-is_some cls u = refl

put-IsFiled : (obj : StoredObject) (u : User) → IsFiled u → IsFiled (put obj u)
put-IsFiled obj u h cls found e = ground (arith, get-put obj cls u, eq_iff obj.cls cls, h cls found)

remove_stored-IsFiled : (cls : String) (u : User) → IsFiled u → IsFiled (remove_stored cls u)
remove_stored-IsFiled cls u h cls' found e =
    ground (arith, get-remove_stored cls cls' u, h cls' found)

clear_storage-IsFiled : (u : User) → IsFiled (clear_storage u)
unfolding clear_storage get lookup
clear_storage-IsFiled u cls found e = cc

-- The operations that change the storage.
pub data Change : User → User → Type 0 where
  putting : (obj : StoredObject) (u : User) → Change u (put obj u)
  removing : (cls : String) (u : User) → Change u (remove_stored cls u)
  clearing : (u : User) → Change u (clear_storage u)

-- Each operation on the storage keeps every object filed under its own class.
pub Change-IsFiled : {u v : User} → Change u v → IsFiled u → IsFiled v
Change-IsFiled (putting obj u) h = put-IsFiled obj u h
Change-IsFiled (removing cls u) h = remove_stored-IsFiled cls u h
Change-IsFiled (clearing u) h = clear_storage-IsFiled u

-- After `put` the class of the object has that object, and `has` says so; after `remove` it has none;
-- every other class has what it had.
pub storage_laws :
    (obj : StoredObject) (cls : String) (u : User)
    → (get cls (put obj u) ≡ (if obj.cls == cls then some obj else get cls u))
      × (has obj.cls (put obj u) ≡ true)
      × (get cls (remove_stored obj.cls u) ≡ (if obj.cls == cls then none else get cls u))
      × (has obj.cls (remove_stored obj.cls u) ≡ false)
storage_laws obj cls u = (
  get-put obj cls u,
  rw (has-is_some, get-put obj obj.cls u, beq_refl obj.cls) refl,
  get-remove_stored obj.cls cls u,
  rw (has-is_some, get-remove_stored obj.cls obj.cls u, beq_refl obj.cls) refl,
)
