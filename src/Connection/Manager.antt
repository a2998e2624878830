-- ===== src/Connection/Manager.antt =====
-- connection.py: the table of connections.
use endweave.Prelude.{
  ◌≡◌, ◌↔◌, [], refl, Option, none, some, String, lookup-insert, lookup-remove, lookup, string_eq,
  if◌then◌else◌, arith, Option-cases, inl, inr,
}
use text.Mathlib.TextEquality.{eq_iff}
use text.Mathlib.Text.{◌==◌}
use endweave.Connection.{
  UserConnection, ConnectionManager, new_connection, get_or_create, get_connection,
  update_connection, remove_by_address,
}

abbrev pub or_new : {A : Type 0} → Option A → A → A
or_new none new = new
or_new (some old) new = old

module _ {P : Type 0} where
  -- Every connection stands under its address.
  abbrev pub IsKeyed : ConnectionManager P → Type 0
  IsKeyed m =
      (address : String) (c : UserConnection P)
      → get_connection address m ≡ some c
      → c.address ≡ address

  -- The connection that is returned is the one in the table, under its address; it is new, with the
  -- server's protocol, exactly if there was none; the other connections stay.
  pub get_or_create_lem :
      (address other : String) (m : ConnectionManager P)
      → (get_connection address (get_or_create address m).1 ≡ some (get_or_create address m).0)
        × ((get_or_create address m).0
            ≡ or_new (get_connection address m) (new_connection address m.server_protocol))
        × (get_connection other (get_or_create address m).1 ≡ (
            if address == other then some (get_or_create address m).0 else get_connection other m))
  unfolding get_or_create get_connection
  get_or_create_lem address other m = elim (Option-cases (lookup address m.connections)) [
    | inl e ↦
        let added = λ (j : String).
          lookup-insert address j (new_connection address m.server_protocol) m.connections in
        (
          ground (arith, e, added address, eq_iff address address),
          ground (arith, e),
          ground (arith, e, added other),
        )
    | inr (c, e) ↦ (ground (arith, e), ground (arith, e), ground (arith, e, eq_iff address other))
  ]

  -- A connection that leaves is gone, with its storage cleared; the others stay.
  pub remove_by_address_lem :
      (address other : String) (m : ConnectionManager P)
      → (get_connection other (remove_by_address address m).1
          ≡ (if address == other then none else get_connection other m))
        × (((remove_by_address address m).0 ≡ none) ↔ (get_connection address m ≡ none))
        × ((c : UserConnection P) → (remove_by_address address m).0 ≡ some c → c.storage ≡ [])
  unfolding remove_by_address get_connection
  remove_by_address_lem address other m =
      (lookup-remove address other m.connections, ground arith, λ c h. ground arith)

  get_or_create-IsKeyed :
      (address : String) (m : ConnectionManager P) → IsKeyed m → IsKeyed (get_or_create address m).1
  get_or_create-IsKeyed address m h other c e =
      let (found, same, rest) = get_or_create_lem address other m in
      ground (arith, rest, same, eq_iff address other, h other c, h address)

  remove-IsKeyed :
      (address : String) (m : ConnectionManager P)
      → IsKeyed m
      → IsKeyed (remove_by_address address m).1
  remove-IsKeyed address m h other c e =
      ground (arith, (remove_by_address_lem address other m).0, h other c)

  update-IsKeyed :
      (address : String) (c : UserConnection P) (m : ConnectionManager P)
      → c.address ≡ address
      → IsKeyed m
      → IsKeyed (update_connection address c m)
  unfolding update_connection get_connection
  update-IsKeyed address c m k h other c' e =
      ground (arith, lookup-insert address other c m.connections, eq_iff address other, h other c')

  -- What the plugin does to the table over time. A connection object keeps its address.
  pub data Step : ConnectionManager P → ConnectionManager P → Type 0 where
    creating : (address : String) (m : ConnectionManager P) → Step m (get_or_create address m).1
    removing : (address : String) (m : ConnectionManager P) → Step m (remove_by_address address m).1
    updating :
        (c : UserConnection P) (m : ConnectionManager P) → Step m (update_connection c.address c m)

  pub data Reach (s : ConnectionManager P) : ConnectionManager P → Type 0 where
    here : Reach s s
    next : {t u : ConnectionManager P} → Reach s t → Step t u → Reach s u

  Step-IsKeyed : {m n : ConnectionManager P} → Step m n → IsKeyed m → IsKeyed n
  Step-IsKeyed (creating address m) h = get_or_create-IsKeyed address m h
  Step-IsKeyed (removing address m) h = remove-IsKeyed address m h
  Step-IsKeyed (updating c m) h = update-IsKeyed c.address c m refl h

  -- In every table that is reached from one where each connection stands under its own address, each
  -- connection does.
  pub Reach-IsKeyed : {s t : ConnectionManager P} → IsKeyed s → Reach s t → IsKeyed t
  Reach-IsKeyed h here = h
  Reach-IsKeyed h (next r st) = Step-IsKeyed st (Reach-IsKeyed h r)
